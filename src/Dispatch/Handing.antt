-- ===== src/Dispatch/Handing.antt =====
-- What a hand-over says of the worker that it ends with.
use harness_run.Base.{
  ℕ, String, ◌==◌, refl, Option, none, some, List, [], ◌∷◌, any, In, In-append_right, Bool-cases,
  inl, inr, any-true-In, Option-cases,
}
use harness_run.Worker.{
  Worker, Body, TurnRecord, start_turn, or_blank, running, get, take_turn, admit,
}
use harness_run.Worker.Turns.{
  Change, change, IsValid, ids_of, stay, then_step, get-none-In, get-some-In, asked, wrote,
}
use harness_run.Worker.Started.{IsComplete, Steps-IsValid}
use harness_run.Dispatch.{
  Call, gone, answered, failed, meanwhile, Handed, owned, refused, is_accepted, said, answer,
  unheard, reconcile, hand_over,
}

-- What the end of a hand-over says of the turn at its worker.
abbrev pub Settles : Handed → String → Worker → Type 0
Settles owned id w = In id w.threads
Settles refused id w = In id w.threads → ⊥
Settles _ id w = Unit

running-ids : (id : String) (rs : List TurnRecord) → In id (running rs) → In id (ids_of rs)
running-ids id [] m = m
running-ids id (r ∷ rs) m = elim (Bool-cases r.done) [
  | inl e ↦ inr (running-ids id rs (rw e at m))
  | inr e ↦ elim (rw e at m) [ inl p ↦ inl p | inr i ↦ inr (running-ids id rs i) ]
]

admit-Settles :
    (now : ℕ) (id : String) (w : Worker) (rs : List String)
    → (In id w.threads → ⊥)
    → (In id rs → ⊥)
    → let (a, w') = admit now id rs w in Settles (said (is_accepted id a)) id w'
unfolding is_accepted
admit-Settles now id w [] n m = In-append_right id w.threads (id ∷ []) (inl refl)
admit-Settles now id w (t ∷ ts) n m = elim (Bool-cases (any (λ u. u == id) (t ∷ ts))) [
  | inl e ↦ absurd (m (any-true-In id (t ∷ ts) e))
  | inr e ↦ rw (e, said, Settles) n
]

take_turn-Settles :
    (now : ℕ) (id : String) (w : Worker)
    → IsValid w
    → let (a, w') = take_turn now id w in Settles (said (is_accepted id a)) id w'
unfolding is_accepted
take_turn-Settles now id w v = elim (Option-cases (get id w.turns)) [
  | inl e ↦
      rw (e, take_turn)
        (admit-Settles now id w (running w.turns) (λ m. get-none-In id w.turns e (rw v.0 at m))
          (λ m. get-none-In id w.turns e (running-ids id w.turns m)))
  | inr (r, e) ↦ rw (e, take_turn) (rw v.0 (get-some-In id w.turns r e))
]

start_turn-IsValid :
    (now : ℕ) (body : Body) (w : Worker) → IsValid w → IsValid (start_turn now body w).1
start_turn-IsValid now body w v = Steps-IsValid (then_step (stay w) (asked now body w)) v

answer-Settles :
    (now : ℕ) (body : Body) (w : Worker)
    → IsValid w
    → IsComplete body
    → let (h, w') = answer now body w in Settles h (or_blank body.turn_id) w' × IsValid w'
unfolding answer start_turn
answer-Settles now body w v c = (settled, start_turn-IsValid now body w v)
  where
    settled :
        let (a, w') = start_turn now body w in
        Settles (said (is_accepted (or_blank body.turn_id) a)) (or_blank body.turn_id) w'
    settled = rw (c.0, start_turn) (rw (c.1) (take_turn-Settles now (or_blank body.turn_id) w v))

unheard-IsValid :
    (got : Option ℕ) (body : Body) (w : Worker) → IsValid w → IsValid (unheard got body w)
unheard-IsValid none body w v = v
unheard-IsValid (some now) body w v = start_turn-IsValid now body w v

change-IsValid : (id : String) (c : Change) (w : Worker) → IsValid w → IsValid (change id c w)
change-IsValid id c w v = Steps-IsValid (then_step (stay w) (wrote id c w)) v

pub reconcile-Settles :
    (body : Body) (calls : List Call) (w : Worker)
    → IsValid w
    → IsComplete body
    → let (h, w') = reconcile body calls w in Settles h (or_blank body.turn_id) w' × IsValid w'
unfolding reconcile
reconcile-Settles body [] w v c = (tt, v)
reconcile-Settles body (gone ∷ calls) w v c = (tt, v)
reconcile-Settles body (answered now ∷ calls) w v c = answer-Settles now body w v c
reconcile-Settles body (failed got late ∷ calls) w v c = elim (Bool-cases late) [
  | inl e ↦ rw (e, reconcile) (tt, unheard-IsValid got body w v)
  | inr e ↦
      rw (e, reconcile)
        (reconcile-Settles body calls (unheard got body w) (unheard-IsValid got body w v) c)
]
reconcile-Settles body (meanwhile id ch ∷ calls) w v c =
    reconcile-Settles body calls (change id ch w) (change-IsValid id ch w v) c

-- A hand-over that ends by an answer knows who has the turn: accepted, its worker has started
-- it, and refused, its worker has not, however many of the calls before were lost.
pub hand_over-Settles :
    (body : Body) (calls : List Call) (w : Worker)
    → IsValid w
    → IsComplete body
    → (In (or_blank body.turn_id) w.threads → ⊥)
    → let (h, w') = hand_over body calls w in Settles h (or_blank body.turn_id) w' × IsValid w'
unfolding hand_over
hand_over-Settles body [] w v c n = (tt, v)
hand_over-Settles body (gone ∷ calls) w v c n = (n, v)
hand_over-Settles body (answered now ∷ calls) w v c n = answer-Settles now body w v c
hand_over-Settles body (failed got late ∷ calls) w v c n =
    reconcile-Settles body calls (unheard got body w) (unheard-IsValid got body w v) c
hand_over-Settles body (meanwhile id ch ∷ calls) w v c n =
    hand_over-Settles body calls (change id ch w) (change-IsValid id ch w v) c n
