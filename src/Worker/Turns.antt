-- ===== src/Worker/Turns.antt =====
-- The steps of a worker, and its turns in each.
use harness_run.Base.{
  ℕ, ◌≤◌, suc, String, ◌==◌, ◌≡◌, refl, true, false, List, [], ◌∷◌, map, append_one, In, Option,
  none, some, Option-cases, length, eq_iff, eq_refl, arith, Bool-cases, inl, inr, Distinct, sym,
}
use harness_run.Worker.{
  Worker, TurnRecord, TurnControl, ModelToken, Body, Line, append, finish, get, update, running,
  start_turn, control, token, set_control, set_token,
}

-- What a turn's thread and the endpoints change in its record.
pub data Change : Type 0 where
  appended : Line → Change
  finished : Option String → ℕ → Change
  attached : TurnControl → Change
  with_token : ModelToken → Change
  in_workspace : String → Change

unfoldable pub apply : Change → TurnRecord → TurnRecord
unfolding append finish
apply (appended l) r = append l r
apply (finished e now) r = finish e now r
apply (attached c) r = set_control c r
apply (with_token t) r = set_token t r
apply (in_workspace p) r = record r { workspace = some p }

abbrev pub change : String → Change → Worker → Worker
change id c w = record w { turns = update id (apply c) w.turns }

-- One request that changes state, or one write of a turn's thread.
pub data Step : Worker → Worker → Type 0 where
  asked : (now : ℕ) (body : Body) (w : Worker) → Step w (start_turn now body w).1
  steered : (fresh : String) (body : Body) (w : Worker) → Step w (control fresh body w).1
  renewed_token : (body : Body) (w : Worker) → Step w (token body w).1
  wrote : (id : String) (c : Change) (w : Worker) → Step w (change id c w)

pub data Steps : Worker → Worker → Type 0 where
  stay : (w : Worker) → Steps w w
  then_step : {u v w : Worker} → Steps u v → Step v w → Steps u w

abbrev pub ids_of : List TurnRecord → List String
ids_of rs = map (λ r. r.turn_id) rs

-- Every turn has a record and a thread, one of each, and at most one turn runs.
abbrev pub IsValid : Worker → Type 0
IsValid w = (w.threads ≡ ids_of w.turns) × Distinct w.threads × (length (running w.turns) ≤ 1)

apply_id : (c : Change) (r : TurnRecord) → (apply c r).turn_id ≡ r.turn_id
unfolding apply append finish
apply_id (appended l) r = refl
apply_id (finished e now) r = refl
apply_id (attached c) r = refl
apply_id (with_token t) r = refl
apply_id (in_workspace p) r = refl

apply_done : (c : Change) (r : TurnRecord) → r.done ≡ true → (apply c r).done ≡ true
unfolding apply append finish
apply_done (appended l) r h = h
apply_done (finished e now) r h = refl
apply_done (attached c) r h = h
apply_done (with_token t) r h = h
apply_done (in_workspace p) r h = h

-- What every change keeps of a record.
abbrev pub Keeps : (TurnRecord → TurnRecord) → Type 0
Keeps f = (r : TurnRecord) → ((f r).turn_id ≡ r.turn_id) × (r.done ≡ true → (f r).done ≡ true)

pub apply-Keeps : (c : Change) → Keeps (apply c)
apply-Keeps c r = (apply_id c r, apply_done c r)

pub update_ids :
    (id : String) (f : TurnRecord → TurnRecord) (rs : List TurnRecord)
    → Keeps f
    → ids_of (update id f rs) ≡ ids_of rs
update_ids id f [] k = refl
update_ids id f (r ∷ rs) k = elim (Bool-cases (r.turn_id == id)) [
  | inl e ↦ rw (e, update, (k r).0) refl
  | inr e ↦ rw (e, update, update_ids id f rs k) refl
]

pub count-running :
    (r : TurnRecord) (rs : List TurnRecord)
    → r.done ≡ false
    → length (running (r ∷ rs)) ≡ suc (length (running rs))
count-running r rs e = rw e refl

pub count-done :
    (r : TurnRecord) (rs : List TurnRecord)
    → r.done ≡ true
    → length (running (r ∷ rs)) ≡ length (running rs)
count-done r rs e = rw e refl

pub update-running :
    (id : String) (f : TurnRecord → TurnRecord) (rs : List TurnRecord)
    → Keeps f
    → length (running (update id f rs)) ≤ length (running rs)
update-running id f [] k = omega arith
update-running id f (r ∷ rs) k = elim (Bool-cases (r.turn_id == id)) [
  | inl e ↦
      rw (e, update)
        (elim (Bool-cases r.done) [
          | inl d ↦ rw (count-done r rs d, count-done (f r) rs ((k r).1 d)) (omega arith)
          | inr d ↦ elim (Bool-cases (f r).done) [
            | inl d' ↦ omega (arith, count-done (f r) rs d', count-running r rs d)
            | inr d' ↦ omega (arith, count-running (f r) rs d', count-running r rs d)
          ]
        ])
  | inr e ↦
      rw (e, update)
        (elim (Bool-cases r.done) [
          | inl d ↦
              omega (
                arith,
                update-running id f rs k,
                count-done r rs d,
                count-done r (update id f rs) d,
              )
          | inr d ↦ omega (
            arith,
            update-running id f rs k,
            count-running r rs d,
            count-running r (update id f rs) d,
          )
        ])
]

pub get-none-In : (id : String) (rs : List TurnRecord) → get id rs ≡ none → In id (ids_of rs) → ⊥
get-none-In id [] h m = m
get-none-In id (r ∷ rs) h m = elim (Bool-cases (r.turn_id == id)) [
  | inl e ↦ absurd (some-none (rw (e, get) at h))
  | inr e ↦ elim m [
    | inl p ↦ absurd (true-false (rw (p, eq_refl) at e))
    | inr i ↦ get-none-In id rs (rw (e, get) at h) i
  ]
]
  where
    some-none : ◌≡◌ {A = Option TurnRecord} (some r) none → ⊥
    some-none q = cc

    true-false : true ≡ false → ⊥
    true-false q = cc

pub get-some-In :
    (id : String) (rs : List TurnRecord) (s : TurnRecord) → get id rs ≡ some s → In id (ids_of rs)
get-some-In id [] s h = absurd (none-some h)
  where
    none-some : ◌≡◌ {A = Option TurnRecord} none (some s) → ⊥
    none-some q = cc
get-some-In id (r ∷ rs) s h = elim (Bool-cases (r.turn_id == id)) [
  | inl e ↦ inl (sym ((eq_iff r.turn_id id).0 e))
  | inr e ↦ inr (get-some-In id rs s (rw (e, get) at h))
]

-- A turn that is known stays known.
pub In-get :
    (id : String) (rs : List TurnRecord)
    → In id (ids_of rs)
    → (r : TurnRecord) × (get id rs ≡ some r)
In-get id rs m = elim (Option-cases (get id rs)) [
  | inl e ↦ absurd (get-none-In id rs e m)
  | inr p ↦ p
]

pub running-append_one :
    (rs : List TurnRecord) (r : TurnRecord)
    → length (running (append_one rs r)) ≤ suc (length (running rs))
running-append_one [] r = elim (Bool-cases r.done) [
  | inl e ↦ rw (count-done r [] e) (omega arith)
  | inr e ↦ rw (count-running r [] e) (omega arith)
]
running-append_one (x ∷ rs) r = elim (Bool-cases x.done) [
  | inl e ↦
      omega (arith, running-append_one rs r, count-done x rs e, count-done x (append_one rs r) e)
  | inr e ↦
      omega
        (arith, running-append_one rs r, count-running x rs e, count-running x (append_one rs r) e)
]
