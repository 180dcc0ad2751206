-- ===== src/Dispatch.antt =====
-- harness_run/runtime/sandbox/backend.py: how a turn is handed to a sandbox, by calls that may
-- be lost.
pub mod Handing
pub mod Exclusive
pub mod Settling
pub mod Ownership
pub mod Sources
use harness_run.Base.{
  ℕ, zero, suc, ◌+◌, String, ◌==◌, Bool, true, false, not, ◌&&◌, Option, none, some, List, [], ◌∷◌,
  if◌then◌else◌, any, append_one, ltb,
}
use harness_run.Worker.{
  Worker, Body, TurnAnswer, ids_required, already_accepted, busy, accepted, start_turn, or_blank,
  running_turn,
}
use harness_run.Worker.Turns.{Change, change}

-- One `/turn` call. `gone` is the platform's "no such sandbox", which is never delivered;
-- `answered` is a call whose answer arrives; `failed` is any other failure, of a call that the
-- worker may have got or not, with whether the deadline has passed by then; the numbers are the
-- times at which the worker gets the call. `meanwhile` is a write of a turn's thread between
-- two calls.
pub data Call : Type 0 where
  gone : Call
  answered : ℕ → Call
  failed : Option ℕ → Bool → Call
  meanwhile : String → Change → Call

-- What `_hand_over` returns or raises. `asking` is a call that has not ended.
pub data Handed : Type 0 where
  owned : Handed
  refused : Handed
  uncertain : Handed
  asking : Handed

-- `_accepted`: no answer of the worker has "already used" in its error.
unfoldable pub is_accepted : String → TurnAnswer → Bool
is_accepted id (accepted i t) = true
is_accepted id (already_accepted i t d) = true
is_accepted id (busy running) = any (λ t. t == id) running
is_accepted id ids_required = false

abbrev pub said : Bool → Handed
said true = owned
said false = refused

unfoldable pub answer : ℕ → Body → Worker → Handed × Worker
answer now body w =
    let (a, w') = start_turn now body w in (said (is_accepted (or_blank body.turn_id) a), w')

-- A worker that may have got a call whose answer is lost.
abbrev pub unheard : Option ℕ → Body → Worker → Worker
unheard none body w = w
unheard (some now) body w = (start_turn now body w).1

-- `_reconcile`: the same request, again, until it is answered or it is too late.
unfoldable pub reconcile : Body → List Call → Worker → Handed × Worker
reconcile body [] w = (asking, w)
reconcile body (gone ∷ calls) w = (uncertain, w)
reconcile body (answered now ∷ calls) w = answer now body w
reconcile body (failed got late ∷ calls) w =
    let rest = reconcile body calls (unheard got body w) in
    if late then (uncertain, unheard got body w) else rest
reconcile body (meanwhile id c ∷ calls) w = reconcile body calls (change id c w)

unfoldable pub hand_over : Body → List Call → Worker → Handed × Worker
unfolding reconcile answer
hand_over body [] w = (asking, w)
hand_over body (gone ∷ calls) w = (refused, w)
hand_over body (answered now ∷ calls) w = answer now body w
hand_over body (failed got late ∷ calls) w = reconcile body calls (unheard got body w)
hand_over body (meanwhile id c ∷ calls) w = hand_over body calls (change id c w)

-- `_Dispatch`, the session's `_sandbox`, and what the dispatch does to the engine: the sandboxes
-- by name, the names that it deletes, and the size of the refill that it asks for.
pub record Dispatch : Type 0 where
  pub fleet : String → Worker
  pub sandbox : Option String
  pub session_sandbox : Option String
  pub accepted : Bool
  pub finished : Bool
  pub released : List String
  pub refill : ℕ

-- What one round of the loop meets: whether the run is abandoned by the time of each of the
-- three reads of that flag, the sandbox that is claimed (`none` is an error of the claim) and
-- whether it is from the pool, the calls, and whether the worker answers `/health`.
pub record Attempt : Type 0 where
  pub abandoned_before : Bool
  pub claimed : Option (String × Bool)
  pub abandoned_claimed : Bool
  pub calls : List Call
  pub abandoned_after : Bool
  pub healthy : Bool

pub data Outcome : Type 0 where
  took : String → Outcome
  abandoned : Outcome
  claim_failed : Outcome
  unsure : String → Outcome
  no_sandbox : Outcome
  pending : Outcome

abbrev pub set_worker : String → Worker → (String → Worker) → String → Worker
set_worker s w fleet t = if t == s then w else fleet t

-- `_runs_another_turn`
unfoldable pub runs_another_turn : String → Bool → Worker → Bool
runs_another_turn id healthy w =
    if healthy
    then elim (running_turn w) [ none ↦ false | some t ↦ if t == "" then false else not (t == id) ]
    else false

-- The session learns the sandbox, unless the run was abandoned.
abbrev pub publish : Bool → String → Dispatch → Dispatch
publish true s d = d
publish false s d = record d { session_sandbox = some s }

abbrev pub accept : Bool → String → Dispatch → Dispatch
accept true s d = d
accept false s d = record d { session_sandbox = some s; accepted = true }

abbrev pub let_go : Bool → String → Dispatch → Dispatch
let_go true s d = record d { sandbox = none }
let_go false s d = record d { sandbox = none; released = append_one d.released s }

-- The `finally`: every pool entry that was taken is replaced.
abbrev pub close : ℕ → Dispatch → Dispatch
close consumed d = record d { finished = true; refill = d.refill + consumed }

abbrev pub one_if : Bool → ℕ
one_if true = 1
one_if false = 0

-- How one round of the loop ends: with what it returns or raises, or by going on. The number is
-- that of the pool entries taken so far.
pub data Round : Type 0 where
  over : Outcome → ℕ → Dispatch → Round
  again : ℕ → Dispatch → Round

-- The rest of a round, after the hand-over.
abbrev pub settle : String → String → Attempt → ℕ → Handed → Dispatch → Round
settle id s a consumed owned d = over (took s) consumed (accept a.abandoned_after s d)
settle id s a consumed uncertain d = over (unsure s) consumed (publish a.abandoned_after s d)
settle id s a consumed asking d = over pending consumed d
settle id s a consumed refused d =
    again consumed (let_go (runs_another_turn id a.healthy (d.fleet s)) s d)

abbrev pub hold : String → Dispatch → Dispatch
hold s d = record d { sandbox = some s }

abbrev pub set_fleet : String → Worker → Dispatch → Dispatch
set_fleet s w d = record d { fleet = set_worker s w d.fleet }

-- The round from the claim on.
abbrev pub with_sandbox : Body → Attempt → String → ℕ → Dispatch → Round
with_sandbox body a s consumed d =
    let (h, w) = hand_over body a.calls (d.fleet s) in
    if a.abandoned_claimed
    then over abandoned consumed (hold s d)
    else settle (or_blank body.turn_id) s a consumed h (set_fleet s w (hold s d))

unfoldable pub round : Body → Attempt → ℕ → Dispatch → Round
round body a consumed d = if a.abandoned_before then over abandoned consumed d else elim a.claimed [
  | none ↦ over claim_failed consumed d
  | some (s, warm) ↦ with_sandbox body a s (consumed + one_if warm) d
]

-- A dispatch that is still pending has not run its `finally`.
abbrev pub ended : Outcome → ℕ → Dispatch → Outcome × Dispatch
ended pending consumed d = (pending, d)
ended o consumed d = (o, close consumed d)

unfoldable pub dispatch_loop : ℕ → Body → List Attempt → ℕ → Dispatch → Outcome × Dispatch
unfolding round
dispatch_loop zero body attempts consumed d = ended no_sandbox consumed d
dispatch_loop (suc n) body [] consumed d = (pending, d)
dispatch_loop (suc n) body (a ∷ attempts) consumed d = elim (round body a consumed d) [
  | over o c d' ↦ ended o c d'
  | again c d' ↦ dispatch_loop n body attempts c d'
]

-- `DISPATCH_ATTEMPTS`
abbrev pub dispatch_attempts : ℕ
dispatch_attempts = 3

abbrev pub new_dispatch : (String → Worker) → Dispatch
new_dispatch fleet = record {
  fleet = fleet;
  sandbox = none;
  session_sandbox = none;
  accepted = false;
  finished = false;
  released = [];
  refill = 0;
}

unfoldable pub dispatch : Body → List Attempt → (String → Worker) → Outcome × Dispatch
unfolding dispatch_loop
dispatch body attempts fleet = dispatch_loop dispatch_attempts body attempts 0 (new_dispatch fleet)
