-- ===== src/Tail/Live.antt =====
-- harness_run/runtime/sandbox/backend.py, `_stream_turn`: the events of a turn, from its worker
-- as long as that answers, then from the mirror.
pub mod Fallback
pub mod Ends
use harness_run.Tail.{Status, going, ended, raised, Tail}
use harness_run.Base.{
  ℕ, zero, suc, ◌+◌, Bool, true, false, Option, none, some, List, [], ◌∷◌, ◌++◌, if◌then◌else◌, leb,
  append_one,
}

-- The end of one `/events` call. A page has its lines, each with the event that
-- `event_from_mirror` makes of it (`none` where that raises), and whether it is the last one.
pub data Direct (Event : Type 0) : Type 0 where
  vanished : Direct Event
  call_failed : Direct Event
  refused : Direct Event
  paged : List (Option Event) → Bool → Direct Event

pub data Cause : Type 0 where
  worker_ended : Cause
  sandbox_gone : Cause
  stopped_answering : Cause

-- What the worker's part of the stream ends with: the end of the stream, the fallback, with
-- `gone`, or more calls.
pub data Phase : Type 0 where
  over : Phase
  fall_back : Bool → Phase
  polling : Phase

-- `yielded` counts the lines, `out` has the events.
pub record Live (Event : Type 0) : Type 0 where
  pub yielded : ℕ
  pub failures : ℕ
  pub out : List Event

-- `DIRECT_MAX_FAILURES`
abbrev pub direct_max_failures : ℕ
direct_max_failures = 3

-- `ours` says that an event's turn id is this turn's or missing; `synthetic` is
-- `_synthetic_result`.
module _ {Event : Type 0} (ours is_result : Event → Bool) (synthetic : Cause → Event) where
  abbrev pub new_live : Live Event
  new_live = record { yielded = 0; failures = 0; out = [] }

  abbrev pub count : Live Event → Live Event
  count l = record l { yielded = suc l.yielded }

  abbrev pub emit : Event → Live Event → Live Event
  emit e l = record l { yielded = suc l.yielded; out = append_one l.out e }

  -- The lines of a page, and whether the terminal result is among them.
  unfoldable pub emit_lines : List (Option Event) → Live Event → Bool × Live Event
  emit_lines [] l = (false, l)
  emit_lines (none ∷ es) l = emit_lines es (count l)
  emit_lines (some e ∷ es) l =
      let skipped = emit_lines es (count l) in
      let rest = emit_lines es (emit e l) in
      if ours e then if is_result e then (true, emit e l) else rest else skipped

  abbrev pub end_with : Cause → Live Event → Live Event
  end_with c l = record l { out = append_one l.out (synthetic c) }

  abbrev pub fail : Live Event → Live Event
  fail l = record l { failures = suc l.failures }

  abbrev pub start_page : Live Event → Live Event
  start_page l = record l { failures = 0 }

  unfoldable pub direct : List (Direct Event) → Live Event → Phase × Live Event
  unfolding emit_lines
  direct [] l = (polling, l)
  direct (vanished ∷ ds) l = (fall_back true, l)
  direct (call_failed ∷ ds) l =
      let later = direct ds (fail l) in
      if leb direct_max_failures (suc l.failures) then (fall_back false, fail l) else later
  direct (refused ∷ ds) l = (fall_back false, start_page l)
  direct (paged lines done ∷ ds) l =
      let (stop, l') = emit_lines lines (start_page l) in
      let later = direct ds l' in
      if stop then (over, l') else if done then (over, end_with worker_ended l') else later

  -- What the fallback yields of the mirror's events, without the first `skip` of them, and
  -- whether it raises: `raises` says that the tail does, behind these events.
  unfoldable pub mirrored : Cause → Bool → ℕ → List Event → List Event × Bool
  mirrored c raises skip [] = if raises then ([], true) else (synthetic c ∷ [], false)
  mirrored c raises (suc skip) (e ∷ es) = mirrored c raises skip es
  mirrored c raises zero (e ∷ es) =
      let (rest, failed) = mirrored c raises zero es in
      if is_result e then (e ∷ [], false) else (e ∷ rest, failed)

  abbrev pub cause_of : Bool → Cause
  cause_of true = sandbox_gone
  cause_of false = stopped_answering

  abbrev pub is_raised : Status → Bool
  is_raised going = false
  is_raised ended = false
  is_raised raised = true

  abbrev pub after : List Event → List Event × Bool → List Event × Bool
  after out (es, failed) = (out ++ es, failed)

  -- The whole stream, given how the mirror's tail ends if it is asked: the events, and whether it
  -- raises what the tail raises.
  unfoldable pub stream_turn : List (Direct Event) → Status × Tail Event → List Event × Bool
  unfolding direct mirrored
  stream_turn ds (s, t) =
      let (phase, l) = direct ds new_live in
      elim phase [
        | over ↦ (l.out, false)
        | polling ↦ (l.out, false)
        | fall_back gone ↦ after l.out (mirrored (cause_of gone) (is_raised s) l.yielded t.yielded)
      ]
