-- ===== src/Dispatch/Settling.antt =====
-- A call whose answer is lost is settled by asking again.
use harness_run.Base.{
  ℕ, String, ◌≡◌, refl, false, Option, none, some, List, [], ◌∷◌, In, In-append_right, inl, inr,
  append_one, Option-cases, ap, ◌∙◌,
}
use harness_run.Worker.{
  Worker, Body, accepted, start_turn, or_blank, running, get, take_turn, new_record,
}
use harness_run.Worker.Turns.{IsValid, stay, then_step, asked, get-some-In}
use harness_run.Worker.Started.{IsComplete, start_turn_again, Steps-IsValid}
use harness_run.Dispatch.{
  Call, answered, failed, Handed, owned, is_accepted, answer, reconcile, hand_over,
}

-- Calls that are lost before the deadline, delivered or not, and one that is answered.
abbrev pub lost : List (Option ℕ) → ℕ → List Call
lost [] now = answered now ∷ []
lost (got ∷ gots) now = failed got false ∷ lost gots now

abbrev started_by : ℕ → String → Worker → Worker
started_by now id w = record {
  turns = append_one w.turns (new_record id now);
  threads = append_one w.threads id;
}

start_turn-idle :
    (now : ℕ) (body : Body) (w : Worker)
    → IsValid w
    → IsComplete body
    → running w.turns ≡ []
    → (In (or_blank body.turn_id) w.threads → ⊥)
    → start_turn now body w
      ≡ (accepted (or_blank body.turn_id) now, started_by now (or_blank body.turn_id) w)
unfolding start_turn
start_turn-idle now body w v c r n = elim (Option-cases (get (or_blank body.turn_id) w.turns)) [
  | inl e ↦ rw (c.0, start_turn) (rw (c.1) (rw (e, take_turn, r) refl))
  | inr (s, e) ↦ absurd (n (rw v.0 (get-some-In (or_blank body.turn_id) w.turns s e)))
]

reconcile-started :
    (gots : List (Option ℕ)) (now : ℕ) (body : Body) (w : Worker)
    → IsValid w
    → IsComplete body
    → In (or_blank body.turn_id) w.threads
    → reconcile body (lost gots now) w ≡ (owned, w)
unfolding reconcile answer is_accepted
reconcile-started [] now body w v c m =
    let (t, d, e) = start_turn_again now body w w v c m (stay w) in rw e refl
reconcile-started (none ∷ gots) now body w v c m = reconcile-started gots now body w v c m
reconcile-started (some at ∷ gots) now body w v c m =
    let (t, d, e) = start_turn_again at body w w v c m (stay w) in
    let f : (start_turn at body w).1 ≡ w = ap (λ p. p.1) e in
    ap (reconcile body (lost gots now)) f ∙ reconcile-started gots now body w v c m

abbrev Once : Handed × Worker → String → Worker → Type 0
Once r id w = (r.0 ≡ owned) × (r.1.threads ≡ append_one w.threads id)

started-Once :
    (gots : List (Option ℕ)) (now : ℕ) (body : Body) (w w' : Worker)
    → IsValid w'
    → IsComplete body
    → w'.threads ≡ append_one w.threads (or_blank body.turn_id)
    → Once (reconcile body (lost gots now) w') (or_blank body.turn_id) w
started-Once gots now body w w' v c e =
    let id = or_blank body.turn_id in
    let m : In id w'.threads = rw e (In-append_right id w.threads (id ∷ []) (inl refl)) in
    let q = reconcile-started gots now body w' v c m in
    (ap (λ r. r.0) q, ap (λ r. r.1.threads) q ∙ e)

reconcile-idle :
    (gots : List (Option ℕ)) (now : ℕ) (body : Body) (w : Worker)
    → IsValid w
    → IsComplete body
    → running w.turns ≡ []
    → (In (or_blank body.turn_id) w.threads → ⊥)
    → Once (reconcile body (lost gots now) w) (or_blank body.turn_id) w
unfolding reconcile answer is_accepted
reconcile-idle [] now body w v c r n = rw (start_turn-idle now body w v c r n) (refl, refl)
reconcile-idle (none ∷ gots) now body w v c r n = reconcile-idle gots now body w v c r n
reconcile-idle (some at ∷ gots) now body w v c r n =
    let e = start_turn-idle at body w v c r n in
    started-Once gots now body w (start_turn at body w).1
      (Steps-IsValid (then_step (stay w) (asked at body w)) v) c (ap (λ p. p.1.threads) e)

-- An idle worker that does not know the turn is asked until it answers, whichever of the
-- requests before were lost on the way there and which on the way back: the hand-over ends with
-- the turn accepted, and the worker has started one thread more, for this turn.
pub hand_over_once :
    (gots : List (Option ℕ)) (now : ℕ) (body : Body) (w : Worker)
    → IsValid w
    → IsComplete body
    → running w.turns ≡ []
    → (In (or_blank body.turn_id) w.threads → ⊥)
    → let (h, w') = hand_over body (lost gots now) w in
      (h ≡ owned) × (w'.threads ≡ append_one w.threads (or_blank body.turn_id))
unfolding hand_over reconcile
hand_over_once [] now body w v c r n = reconcile-idle [] now body w v c r n
hand_over_once (none ∷ gots) now body w v c r n = reconcile-idle gots now body w v c r n
hand_over_once (some at ∷ gots) now body w v c r n =
    reconcile-idle (some at ∷ gots) now body w v c r n
