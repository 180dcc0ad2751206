-- ===== src/Dispatch/Exclusive.antt =====
-- A turn runs on one sandbox at most.
use harness_run.Base.{
  ℕ, zero, suc, ◌+◌, String, ◌==◌, ◌≡◌, refl, Bool, true, false, some, List, [], ◌∷◌, In,
  Bool-cases, inl, inr, ◌⊎◌, eq_refl, Option-cases,
}
use harness_run.Worker.{Worker, Body, or_blank}
use harness_run.Worker.Turns.{IsValid}
use harness_run.Worker.Started.{IsComplete}
use harness_run.Dispatch.{
  Dispatch, Attempt, Outcome, took, abandoned, claim_failed, unsure, no_sandbox, pending,
  set_worker, Handed, owned, refused, uncertain, asking, Round, over, again, settle, hold,
  set_fleet, with_sandbox, round, ended, dispatch_loop, dispatch, new_dispatch, accept, publish,
  let_go, hand_over, runs_another_turn, one_if,
}
use harness_run.Dispatch.Handing.{Settles, hand_over-Settles}

abbrev pub Fleet : Type 0
Fleet = String → Worker

-- The worker of this name, and no other, may have started the turn.
abbrev pub OnlyAt : String → String → Fleet → Type 0
OnlyAt id s fleet = (t : String) → (t == s) ≡ false → In id (fleet t).threads → ⊥

abbrev pub Nowhere : String → Fleet → Type 0
Nowhere id fleet = (t : String) → In id (fleet t).threads → ⊥

abbrev pub Clean : String → Fleet → Type 0
Clean id fleet = (t : String) → IsValid (fleet t) × (In id (fleet t).threads → ⊥)

-- What an outcome says of where the turn was started, and which sandbox the slot refers to.
abbrev pub Decides : String → Outcome → Dispatch → Type 0
Decides id (took s) d = In id (d.fleet s).threads × OnlyAt id s d.fleet × (d.sandbox ≡ some s)
Decides id (unsure s) d = OnlyAt id s d.fleet × (d.sandbox ≡ some s)
Decides id pending d =
    Nowhere id d.fleet ⊎ ((s : String) × (d.sandbox ≡ some s) × OnlyAt id s d.fleet)
Decides id _ d = Nowhere id d.fleet

abbrev RoundDecides : String → Round → Type 0
RoundDecides id (over o c d) = Decides id o d
RoundDecides id (again c d) = Clean id d.fleet

ended-Decides :
    (id : String) (o : Outcome) (c : ℕ) (d : Dispatch)
    → Decides id o d
    → let (o', d') = ended o c d in Decides id o' d'
ended-Decides id (took s) c d h = h
ended-Decides id abandoned c d h = h
ended-Decides id claim_failed c d h = h
ended-Decides id (unsure s) c d h = h
ended-Decides id no_sandbox c d h = h
ended-Decides id pending c d h = h

OnlyAt-set :
    (id s : String) (w : Worker) (fleet : Fleet)
    → Clean id fleet
    → OnlyAt id s (set_worker s w fleet)
OnlyAt-set id s w fleet k t e = rw (e, set_worker) (k t).1

Clean-set :
    (id s : String) (w : Worker) (fleet : Fleet)
    → Clean id fleet
    → IsValid w
    → (In id w.threads → ⊥)
    → Clean id (set_worker s w fleet)
Clean-set id s w fleet k v n t = elim (Bool-cases (t == s)) [
  | inl e ↦ rw (e, set_worker) (v, n)
  | inr e ↦ rw (e, set_worker) (k t)
]

set_worker-same : (s : String) (w : Worker) (fleet : Fleet) → set_worker s w fleet s ≡ w
set_worker-same s w fleet = rw (eq_refl s, set_worker) refl

accept-Decides :
    (id : String) (b : Bool) (s : String) (d : Dispatch)
    → Decides id (took s) d
    → Decides id (took s) (accept b s d)
accept-Decides id true s d h = h
accept-Decides id false s d h = h

publish-Decides :
    (id : String) (b : Bool) (s : String) (d : Dispatch)
    → Decides id (unsure s) d
    → Decides id (unsure s) (publish b s d)
publish-Decides id true s d h = h
publish-Decides id false s d h = h

let_go-Clean :
    (id : String) (b : Bool) (s : String) (d : Dispatch)
    → Clean id d.fleet
    → Clean id (let_go b s d).fleet
let_go-Clean id true s d h = h
let_go-Clean id false s d h = h

settle-Decides :
    (id s : String) (a : Attempt) (c : ℕ) (h : Handed) (w : Worker) (d : Dispatch)
    → Clean id d.fleet
    → IsValid w
    → Settles h id w
    → RoundDecides id (settle id s a c h (set_fleet s w (hold s d)))
settle-Decides id s a c owned w d k v m =
    accept-Decides id a.abandoned_after s (set_fleet s w (hold s d))
      (rw (set_worker-same s w d.fleet) m, OnlyAt-set id s w d.fleet k, refl)
settle-Decides id s a c refused w d k v m =
    let_go-Clean id (runs_another_turn id a.healthy (set_worker s w d.fleet s)) s
      (set_fleet s w (hold s d)) (Clean-set id s w d.fleet k v m)
settle-Decides id s a c uncertain w d k v m =
    publish-Decides id a.abandoned_after s (set_fleet s w (hold s d))
      (OnlyAt-set id s w d.fleet k, refl)
settle-Decides id s a c asking w d k v m = inr (s, refl, OnlyAt-set id s w d.fleet k)

with_sandbox-Decides :
    (body : Body) (a : Attempt) (s : String) (c : ℕ) (d : Dispatch)
    → IsComplete body
    → Clean (or_blank body.turn_id) d.fleet
    → RoundDecides (or_blank body.turn_id) (with_sandbox body a s c d)
with_sandbox-Decides body a s c d b k = elim (Bool-cases a.abandoned_claimed) [
  | inl e ↦ rw (e, with_sandbox) (λ t. (k t).1)
  | inr e ↦
      let (h, w) = hand_over body a.calls (d.fleet s) in
      let (m, v) = hand_over-Settles body a.calls (d.fleet s) (k s).0 b (k s).1 in
      rw (e, with_sandbox) (settle-Decides (or_blank body.turn_id) s a c h w d k v m)
]

round-Decides :
    (body : Body) (a : Attempt) (c : ℕ) (d : Dispatch)
    → IsComplete body
    → Clean (or_blank body.turn_id) d.fleet
    → RoundDecides (or_blank body.turn_id) (round body a c d)
unfolding round
round-Decides body a c d b k = elim (Bool-cases a.abandoned_before) [
  | inl e ↦ rw (e, round) (λ t. (k t).1)
  | inr e ↦ elim (Option-cases a.claimed) [
    | inl f ↦ rw (e, round) (rw f (λ t. (k t).1))
    | inr (p, f) ↦ rw (e, round) (rw f (with_sandbox-Decides body a p.0 (c + one_if p.1) d b k))
  ]
]

loop-Decides :
    (n : ℕ) (body : Body) (attempts : List Attempt) (c : ℕ) (d : Dispatch)
    → IsComplete body
    → Clean (or_blank body.turn_id) d.fleet
    → let (o, d') = dispatch_loop n body attempts c d in Decides (or_blank body.turn_id) o d'
unfolding dispatch_loop
loop-Decides zero body attempts c d b k = λ t. (k t).1
loop-Decides (suc n) body [] c d b k = inl (λ t. (k t).1)
loop-Decides (suc n) body (a ∷ attempts) c d b k =
    on_round (round body a c d) (λ c' d' h. loop-Decides n body attempts c' d' b h)
      (round-Decides body a c d b k)
  where
    on_round :
        (r : Round)
        → ((c' : ℕ) (d' : Dispatch)
            → Clean (or_blank body.turn_id) d'.fleet
            → let (o, d'') = dispatch_loop n body attempts c' d' in
              Decides (or_blank body.turn_id) o d'')
        → RoundDecides (or_blank body.turn_id) r
        → let (o, d') = elim r as (λ _. Outcome × Dispatch) [
          | over o c d' ↦ ended o c d'
          | again c d' ↦ dispatch_loop n body attempts c d'
        ] in
          Decides (or_blank body.turn_id) o d'
    on_round (over o c' d') ih h = ended-Decides (or_blank body.turn_id) o c' d' h
    on_round (again c' d') ih h = ih c' d' h

-- However the calls of a dispatch are answered, lost or late, whatever sandboxes are claimed and
-- whenever the run is abandoned: a turn that no worker knew is started by the worker of the
-- sandbox that the dispatch returns, and by no other; by no worker at all, if the dispatch is
-- abandoned or fails for want of a sandbox; and by no worker but that of the sandbox that the
-- slot refers to, if it is uncertain or still asking.
pub dispatch-Decides :
    (body : Body) (attempts : List Attempt) (fleet : Fleet)
    → IsComplete body
    → Clean (or_blank body.turn_id) fleet
    → let (o, d) = dispatch body attempts fleet in Decides (or_blank body.turn_id) o d
unfolding dispatch
dispatch-Decides body attempts fleet b k = loop-Decides 3 body attempts 0 (new_dispatch fleet) b k
