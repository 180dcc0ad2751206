-- ===== src/Worker/Started.antt =====
-- A worker starts each turn once, answers for the turns it has started, and runs one at a time.
use harness_run.Base.{
  ℕ, String, ◌==◌, ◌≡◌, refl, Bool, false, List, [], ◌∷◌, append_one, In, In-append_left,
  In-append_right, none, Option-cases, length, arith, Bool-cases, inl, inr, append_one-Distinct,
  map-append_one, ◌⊎◌, ap, ◌∙◌, sym,
}
use harness_run.Control.{ControlMessage, from_dict, Parsed, parsed, unknown_op, needs_message}
use harness_run.Worker.Turns.{
  apply, Step, asked, steered, renewed_token, wrote, Steps, stay, then_step, ids_of, IsValid, Keeps,
  apply-Keeps, update_ids, update-running, get-none-In, get-some-In, In-get, running-append_one,
}
use harness_run.Worker.{
  Worker, TurnRecord, Body, get, update, running, start_turn, admit, take_turn, control, token,
  new_record, set_control, set_token, TurnAnswer, already_accepted, or_blank, deliver, token_record,
  turn_key, accepted, send,
}

-- What a turn's thread and the endpoints change in its record.
-- What one step does to the worker.
data Effect : Worker → Worker → Type 0 where
  unchanged : (w : Worker) → Effect w w
  updated :
      (id : String) (f : TurnRecord → TurnRecord) (w : Worker)
      → Keeps f
      → Effect w (record w { turns = update id f w.turns })
  started :
      (now : ℕ) (id : String) (w : Worker)
      → get id w.turns ≡ none
      → running w.turns ≡ []
      → Effect w (record {
        turns = append_one w.turns (new_record id now);
        threads = append_one w.threads id;
      })

admit-Effect :
    (now : ℕ) (id : String) (w : Worker) (rs : List String)
    → get id w.turns ≡ none
    → running w.turns ≡ rs
    → Effect w (admit now id rs w).1
admit-Effect now id w [] e r = started now id w e r
admit-Effect now id w (t ∷ ts) e r = unchanged w

start_turn-Effect : (now : ℕ) (body : Body) (w : Worker) → Effect w (start_turn now body w).1
unfolding start_turn
start_turn-Effect now body w = elim (Bool-cases (or_blank body.turn_id == "")) [
  | inl e ↦ rw (e, start_turn) (unchanged w)
  | inr e ↦
      rw (e, start_turn)
        (elim (Bool-cases (body.session_id == "")) [
          | inl f ↦ rw f (unchanged w)
          | inr f ↦ rw f (elim (Option-cases (get (or_blank body.turn_id) w.turns)) [
            | inl g ↦
                rw (g, take_turn)
                  (admit-Effect now (or_blank body.turn_id) w (running w.turns) g refl)
            | inr (r, g) ↦ rw (g, take_turn) (unchanged w)
          ])
        ])
]

deliver-Effect : (m : ControlMessage) (r : TurnRecord) (w : Worker) → Effect w (deliver m r w).1
deliver-Effect m r w = elim (Bool-cases r.done) [
  | inl e ↦ rw (e, deliver) (unchanged w)
  | inr e ↦
      rw (e, deliver)
        (elim (Option-cases r.control) [
          | inl f ↦ rw f (unchanged w)
          | inr (c, f) ↦ rw f (updated r.turn_id (set_control (send m c).1) w (λ s. (refl, λ d. d)))
        ])
]

control-Effect : (fresh : String) (body : Body) (w : Worker) → Effect w (control fresh body w).1
unfolding control
control-Effect fresh body w = elim (Option-cases (get (turn_key body.turn_id) w.turns)) [
  | inl e ↦ rw (e, control) (unchanged w)
  | inr (r, e) ↦
      rw (e, control)
        (elim (Parsed-cases (from_dict fresh body.control)) [
          | inl (m, f) ↦ rw f (deliver-Effect m r w)
          | inr f ↦ elim f [ inl g ↦ rw g (unchanged w) | inr g ↦ rw g (unchanged w) ]
        ])
]
  where
    Parsed-cases :
        (p : Parsed)
        → ((m : ControlMessage) × (p ≡ parsed m)) ⊎ ((p ≡ unknown_op) ⊎ (p ≡ needs_message))
    Parsed-cases (parsed m) = inl (m, refl)
    Parsed-cases unknown_op = inr (inl refl)
    Parsed-cases needs_message = inr (inr refl)

token-Effect : (body : Body) (w : Worker) → Effect w (token body w).1
unfolding token
token-Effect body w = elim (Option-cases (get (turn_key body.turn_id) w.turns)) [
  | inl e ↦ rw (e, token) (unchanged w)
  | inr (r, e) ↦
      rw (e, token)
        (elim (Option-cases (token_record body.model_token)) [
          | inl f ↦ rw f (unchanged w)
          | inr (t, f) ↦ rw f (elim (Option-cases r.model_token) [
            | inl g ↦ rw g (unchanged w)
            | inr (u, g) ↦ rw g (updated r.turn_id (set_token t) w (λ s. (refl, λ d. d)))
          ])
        ])
]

Step-Effect : {w w' : Worker} → Step w w' → Effect w w'
Step-Effect (asked now body w) = start_turn-Effect now body w
Step-Effect (steered fresh body w) = control-Effect fresh body w
Step-Effect (renewed_token body w) = token-Effect body w
Step-Effect (wrote id c w) = updated id (apply c) w (apply-Keeps c)

Effect-IsValid : {w w' : Worker} → Effect w w' → IsValid w → IsValid w'
unfolding new_record
Effect-IsValid (unchanged w) v = v
Effect-IsValid (updated id f w k) v =
    (v.0 ∙ sym (update_ids id f w.turns k), v.1, omega (arith, update-running id f w.turns k, v.2))
Effect-IsValid (started now id w e r) v = (
  rw (map-append_one (λ r. r.turn_id) w.turns (new_record id now)) (ap (λ t. append_one t id) v.0),
  append_one-Distinct w.threads id (λ m. get-none-In id w.turns e (rw v.0 at m)) v.1,
  omega (arith, running-append_one w.turns (new_record id now), ap length r),
)

Effect-known :
    {w w' : Worker} (id : String) → Effect w w' → In id (ids_of w.turns) → In id (ids_of w'.turns)
unfolding new_record
Effect-known id (unchanged w) m = m
Effect-known id (updated i f w k) m = rw (update_ids i f w.turns k) m
Effect-known id (started now i w e r) m =
    rw (map-append_one (λ r. r.turn_id) w.turns (new_record i now))
      (In-append_left id (ids_of w.turns) (i ∷ []) m)

-- Whatever requests and writes come, in whatever order, a worker starts one thread for each
-- turn that it has a record of, never a second one for the same turn, and at most one of its
-- turns is running.
pub Steps-IsValid : {w w' : Worker} → Steps w w' → IsValid w → IsValid w'
Steps-IsValid (stay w) v = v
Steps-IsValid (then_step s t) v = Effect-IsValid (Step-Effect t) (Steps-IsValid s v)

Steps-known :
    {w w' : Worker} (id : String) → Steps w w' → In id (ids_of w.turns) → In id (ids_of w'.turns)
Steps-known id (stay w) m = m
Steps-known id (then_step s t) m = Effect-known id (Step-Effect t) (Steps-known id s m)

-- The answers by which a worker says that it has the turn.
abbrev pub IsOwned : TurnAnswer → Type 0
IsOwned (accepted id t) = Unit
IsOwned (already_accepted id t d) = Unit
IsOwned _ = ⊥

abbrev pub IsComplete : Body → Type 0
IsComplete body = ((or_blank body.turn_id == "") ≡ false) × ((body.session_id == "") ≡ false)

admit_threads :
    (now : ℕ) (id : String) (w : Worker) (rs : List String)
    → (In id w.threads → ⊥)
    → let (a, w') = admit now id rs w in
      (IsOwned a → In id w'.threads) × ((IsOwned a → ⊥) → (w' ≡ w) × (In id w'.threads → ⊥))
admit_threads now id w [] n =
    (λ _. In-append_right id w.threads (id ∷ []) (inl refl), λ h. absurd (h tt))
admit_threads now id w (t ∷ ts) n = (λ h. absurd h, λ _. (refl, n))

-- An answer to a complete request says who has the turn: the worker whose answer is an
-- acceptance has started it, by this request or before, and one that answers otherwise has not,
-- and is as it was.
start_turn_answers :
    (now : ℕ) (body : Body) (w : Worker)
    → IsValid w
    → IsComplete body
    → let (a, w') = start_turn now body w in
      let id = or_blank body.turn_id in
      (IsOwned a → In id w'.threads) × ((IsOwned a → ⊥) → (w' ≡ w) × (In id w'.threads → ⊥))
unfolding start_turn
start_turn_answers now body w v c =
    let id = or_blank body.turn_id in
    rw (c.0, start_turn)
      (rw (c.1) (elim (Option-cases (get id w.turns)) [
        | inl e ↦
            rw (e, take_turn)
              (admit_threads now id w (running w.turns)
                (λ m. get-none-In id w.turns e (rw v.0 at m)))
        | inr (r, e) ↦
            rw (e, take_turn) (λ _. rw v.0 (get-some-In id w.turns r e), λ h. absurd (h tt))
      ]))

-- A worker that has started a turn answers every later request for it, whatever came between,
-- by `already_accepted`, and starts nothing.
pub start_turn_again :
    (now : ℕ) (body : Body) (w w' : Worker)
    → IsValid w
    → IsComplete body
    → In (or_blank body.turn_id) w.threads
    → Steps w w'
    → (at : ℕ) × (done : Bool) × (start_turn now body w'
        ≡ (already_accepted (or_blank body.turn_id) at done, w'))
unfolding start_turn
start_turn_again now body w w' v c m s =
    let id = or_blank body.turn_id in
    let (r, e) = In-get id w'.turns (Steps-known id s (rw v.0 at m)) in
    (r.started_at, r.done, rw (c.0, start_turn) (rw (c.1) (rw (e, take_turn) refl)))
