-- ===== src/Tail.antt =====
-- harness_run/runtime/sandbox/stream.py, `tail_stream` with a turn id: the reader of a turn's
-- events in the mirror.
pub mod Once
pub mod Live
use harness_run.Base.{
  ℕ, zero, suc, ◌+◌, String, ◌==◌, Bool, true, false, not, Option, none, some, List, [], ◌∷◌, ◌++◌,
  if◌then◌else◌, leb, any, append_one,
}

-- One poll: a listing that fails, or the keys that it lists, each with the events that a read of
-- its object gives, or `none` where that read fails.
pub data Poll (Event : Type 0) : Type 0 where
  list_failed : Poll Event
  listed : List (String × Option (List Event)) → Poll Event

pub data Status : Type 0 where
  going : Status
  ended : Status
  raised : Status

-- The keys that were read, the contents of their objects in that order, the failures since the
-- last success, and the events that were yielded.
pub record Tail (Event : Type 0) : Type 0 where
  pub seen_keys : List String
  pub contents : List (List Event)
  pub failures : ℕ
  pub yielded : List Event

-- `_MAX_POLL_FAILURES`
abbrev pub max_poll_failures : ℕ
max_poll_failures = 10

-- `passes` says that an event is of the turn and is accepted, `is_result` that it is the terminal
-- one, and `names_turn` that the name of a key has the turn's id.
module _ {Event : Type 0} (passes is_result : Event → Bool) (names_turn : String → Bool) where
  abbrev pub new_tail : Tail Event
  new_tail = record { seen_keys = []; contents = []; failures = 0; yielded = [] }

  -- The events that an object yields, and whether the terminal one is among them.
  unfoldable pub yields : List Event → List Event × Bool
  yields [] = ([], false)
  yields (e ∷ es) =
      let (rest, stop) = yields es in
      if passes e then if is_result e then (e ∷ [], true) else (e ∷ rest, stop) else (rest, stop)

  abbrev pub skips : String → Tail Event → Bool
  skips key t = if names_turn key then any (λ k. k == key) t.seen_keys else true

  abbrev pub fail : Tail Event → Tail Event
  fail t = record t { failures = suc t.failures }

  abbrev pub failed_status : Tail Event → Status
  failed_status t = if leb max_poll_failures t.failures then raised else going

  abbrev pub consume : String → List Event → Tail Event → Tail Event
  consume key es t = record {
    seen_keys = append_one t.seen_keys key;
    contents = append_one t.contents es;
    failures = 0;
    yielded = t.yielded ++ (yields es).0;
  }

  -- The keys of one listing.
  unfoldable pub tail_keys : List (String × Option (List Event)) → Tail Event → Status × Tail Event
  tail_keys [] t = (going, t)
  tail_keys ((key, none) ∷ rest) t =
      let later = tail_keys rest t in
      if skips key t then later else (failed_status (fail t), fail t)
  tail_keys ((key, some es) ∷ rest) t =
      let later = tail_keys rest t in
      let next = tail_keys rest (consume key es t) in
      if skips key t then later else if (yields es).1 then (ended, consume key es t) else next

  abbrev pub tail_poll : Poll Event → Tail Event → Status × Tail Event
  tail_poll list_failed t = (failed_status (fail t), fail t)
  tail_poll (listed keys) t = tail_keys keys (record t { failures = 0 })

  -- The polls until the terminal event, an error, or the end of the time that there is.
  unfoldable pub tail_stream : List (Poll Event) → Tail Event → Status × Tail Event
  unfolding tail_keys
  tail_stream [] t = (going, t)
  tail_stream (p ∷ ps) t =
      let (s, t') = tail_poll p t in
      elim s [ going ↦ tail_stream ps t' | ended ↦ (ended, t') | raised ↦ (raised, t') ]
