-- ===== src/Roster/Race.antt =====
-- Many clients on one roster: the rounds of their `claim` calls, the deletes of `prune_expired`,
-- `clear` and `remove`, and `add`, in any order. One round holds one request that changes the
-- bucket, so a round is one step.
use harness_run.Base.{
  ℕ, String, ◌≡◌, ◌≢◌, refl, sym, true, Option, none, some, List, [], ◌∷◌, ◌++◌, eqb, eqb_iff,
  if◌then◌else◌, In, In-append_right, subst, inl, inr, ◌⊎◌, Bool-cases, Option-cases, ◌∙◌,
}
use mathlib.Core.Bool.{false≢true}
use harness_run.Roster.{Row, Claim, claim_row, read, add, key}
use harness_run.Roster.Store.{InMemoryRosterStore, SandboxEntry, entry, id, put, delete_if}
use harness_run.Roster.Rows.{held, less}
use harness_run.Roster.Claiming.{
  claimed_rows, dead, claim_row-dead, claim_row_lost, claim_row_free, claim_row_taken,
}
use harness_run.Roster.Generations.{
  IsSound, Gone, held-Gone, less-IsSound, Gone-less, Gone-less_self, delete_if-IsSound,
  Gone-delete_if, put-IsSound, Gone-put,
}

-- One call of `claim`: the rows that its loop has still to visit, and what it has taken.
pub record Call : Type 0 where
  pub todo : List Row
  pub claimed : Option Row
  pub pruned : List Row

pub record World : Type 0 where
  pub store : InMemoryRosterStore
  pub calls : ℕ → Call

abbrev pub idle : Call
idle = record { todo = []; claimed = none; pruned = [] }

abbrev pub takings : Call → List Row
takings c = c.pruned ++ claimed_rows c.claimed

abbrev pub update : ℕ → Call → (ℕ → Call) → ℕ → Call
update i c calls j = if eqb i j then c else calls j

-- The state of the `claim` loop of call `i`, over the shared store.
abbrev pub loop_state : World → ℕ → Claim
loop_state w i = record {
  store = w.store;
  claimed = (w.calls i).claimed;
  pruned = (w.calls i).pruned;
}

abbrev pub after_round : World → ℕ → List Row → Claim → World
after_round w i rest c = record {
  store = c.store;
  calls = update i (record { todo = rest; claimed = c.claimed; pruned = c.pruned }) w.calls;
}

pub data Step (w : World) : World → Type 0 where
  -- a client starts a call that has taken nothing yet: it lists and reads
  start :
      (i : ℕ) (prefix : String)
      → takings (w.calls i) ≡ []
      → Step w (record w {
        calls =
            update i (record { todo = read w.store prefix; claimed = none; pruned = [] }) w.calls;
      })
  -- one round of a call's loop
  round :
      (i now margin_s : ℕ) (row : Row) (rest : List Row)
      → (w.calls i).todo ≡ row ∷ rest
      → Step w (after_round w i rest (claim_row now margin_s row (loop_state w i)))
  -- a delete by somebody who claims nothing
  drop :
      (name : String) (generation : ℕ)
      → Step w (record w { store = (delete_if w.store name generation).1 })
  -- a client records a new idle sandbox
  enlist : (prefix : String) (e : SandboxEntry) → Step w (record w { store = add w.store prefix e })

pub data Reach (w : World) : World → Type 0 where
  here : Reach w w
  next : {t u : World} → Reach w t → Step t u → Reach w u

record Inv (w : World) : Type 0 where
  sound : IsSound w.store
  gone : (i : ℕ) (r : Row) → In r (takings (w.calls i)) → Gone w.store r.generation
  exclusive :
      (i j : ℕ) (r q : Row)
      → i ≢ j
      → In r (takings (w.calls i))
      → In q (takings (w.calls j))
      → r.generation ≢ q.generation

-- What a round does to the store and to what its call holds.
data Outcome (row : Row) (c : Claim) (c' : Claim) : Type 0 where
  kept : c' ≡ c → Outcome row c c'
  took :
      held c.store row ≡ true
      → c'.store ≡ less c.store row.name
      → ((r : Row)
          → In r (c'.pruned ++ claimed_rows c'.claimed)
          → (r ≡ row) ⊎ In r (c.pruned ++ claimed_rows c.claimed))
      → Outcome row c c'

In-pruned :
    (pruned l : List Row) (row r : Row)
    → In r ((pruned ++ row ∷ []) ++ l)
    → (r ≡ row) ⊎ In r (pruned ++ l)
In-pruned [] l row r m = m
In-pruned (x ∷ pruned) l row r (inl e) = inr (inl e)
In-pruned (x ∷ pruned) l row r (inr m) = elim (In-pruned pruned l row r m) [
  | inl e ↦ inl e
  | inr n ↦ inr (inr n)
]

In-claimed :
    (pruned : List Row) (row r : Row) → In r (pruned ++ row ∷ []) → (r ≡ row) ⊎ In r (pruned ++ [])
In-claimed [] row r m = m
In-claimed (x ∷ pruned) row r (inl e) = inr (inl e)
In-claimed (x ∷ pruned) row r (inr m) = elim (In-claimed pruned row r m) [
  | inl e ↦ inl e
  | inr n ↦ inr (inr n)
]

claim_row-Outcome :
    (now margin_s : ℕ) (row : Row) (c : Claim) → Outcome row c (claim_row now margin_s row c)
claim_row-Outcome now margin_s row c = elim (Bool-cases (held c.store row)) [
  | inr lost ↦ kept (claim_row_lost now margin_s row c lost)
  | inl has ↦ elim (Bool-cases (dead now margin_s row)) [
    | inl d ↦
        rw (claim_row-dead now margin_s row c has d)
          (took has refl (In-pruned c.pruned (claimed_rows c.claimed) row))
    | inr d ↦ elim (Option-cases c.claimed) [
      | inr (r, t) ↦ kept (claim_row_taken now margin_s row c d t)
      | inl t ↦
          rw (claim_row_free now margin_s row c has d t)
            (took has refl (λ r m. rw t (In-claimed c.pruned row r m)))
    ]
  ]
]

module _ (w : World) (i : ℕ) (n : Call) (P : Row → Type 0) where
  abbrev Grown : Type 0
  Grown = (r : Row) → In r (takings n) → P r ⊎ In r (takings (w.calls i))

  In-update :
      Grown
      → (j : ℕ) (r : Row) → In r (takings (update i n w.calls j))
      → ((i ≡ j) × P r) ⊎ In r (takings (w.calls j))
  In-update grown j r m = elim (Bool-cases (eqb i j)) [
    | inr e ↦ inr (subst (λ b. In r (takings (if b then n else w.calls j))) e m)
    | inl e ↦
        let same = (eqb_iff i j).0 e in
        elim (grown r (subst (λ b. In r (takings (if b then n else w.calls j))) e m)) [
          | inl p ↦ inl (same, p)
          | inr old ↦ inr (subst (λ k. In r (takings (w.calls k))) same old)
        ]
  ]

  -- One call grows by rows whose generation is gone now and was not gone before.
  grow-Inv :
      Inv w
      → (s : InMemoryRosterStore) → IsSound s
      → ((g : ℕ) → Gone w.store g → Gone s g)
      → Grown
      → ((r : Row) → P r → Gone s r.generation × ¬ (Gone w.store r.generation))
      → Inv (record { store = s; calls = update i n w.calls })
  grow-Inv v s sound keep grown new = record {
    sound = sound;
    gone = λ j r m. elim (In-update grown j r m) [
      | inl p ↦ (new r p.1).0
      | inr old ↦ keep r.generation (v.gone j r old)
    ];
    exclusive = λ j k r q apart mr mq. elim (In-update grown j r mr) [
      | inl p ↦ elim (In-update grown k q mq) [
        | inl p' ↦ absurd (apart (sym p.0 ∙ p'.0))
        | inr old' ↦ λ e. (new r p.1).1 (subst (Gone w.store) (sym e) (v.gone k q old'))
      ]
      | inr old ↦ elim (In-update grown k q mq) [
        | inl p' ↦ λ e. (new q p'.1).1 (subst (Gone w.store) e (v.gone j r old))
        | inr old' ↦ v.exclusive j k r q apart old old'
      ]
    ];
  }

-- A change of the store alone.
store-Inv :
    (w : World) (s : InMemoryRosterStore)
    → Inv w
    → IsSound s
    → ((g : ℕ) → Gone w.store g → Gone s g)
    → Inv (record w { store = s })
store-Inv w s v sound keep = record {
  sound = sound;
  gone = λ i r m. keep r.generation (v.gone i r m);
  exclusive = v.exclusive;
}

round-Inv :
    (w : World) (i : ℕ) (row : Row) (rest : List Row) (c' : Claim)
    → Inv w
    → Outcome row (loop_state w i) c'
    → Inv (after_round w i rest c')
round-Inv w i row rest c' v (kept e) =
    rw e (grow-Inv w i _ (λ _. ⊥) v w.store v.sound (λ g h. h) (λ r m. inr m) (λ r h. absurd h))
round-Inv w i row rest c' v (took has e grown) = rw e (
    grow-Inv w i _ (λ r. r ≡ row) v (less w.store row.name) (less-IsSound w.store row.name v.sound)
      (Gone-less w.store row.name) grown
      (λ r same. rw same (
        Gone-less_self w.store row v.sound has,
        λ h. false≢true (sym (held-Gone w.store row h) ∙ has),
      )))

add-Inv :
    (w : World) (prefix : String) (e : SandboxEntry)
    → Inv w
    → Inv (record w { store = add w.store prefix e })
unfolding add
add-Inv w prefix e v =
    store-Inv w (put w.store (key prefix (id e)) (entry e)) v
      (put-IsSound w.store (key prefix (id e)) (entry e) v.sound)
      (Gone-put w.store (key prefix (id e)) (entry e))

Step-Inv : {w u : World} → Step w u → Inv w → Inv u
Step-Inv {w = w} (start i prefix none_yet) v =
    grow-Inv w i (record { todo = read w.store prefix; claimed = none; pruned = [] }) (λ _. ⊥) v
      w.store v.sound (λ g h. h) (λ r m. absurd m) (λ r h. absurd h)
Step-Inv {w = w} (round i now margin_s row rest e) v =
    round-Inv w i row rest _ v (claim_row-Outcome now margin_s row (loop_state w i))
Step-Inv {w = w} (drop name generation) v =
    store-Inv w _ v (delete_if-IsSound w.store name generation v.sound)
      (Gone-delete_if w.store name generation)
Step-Inv {w = w} (enlist prefix e) v = add-Inv w prefix e v

Reach-Inv : {w u : World} → Inv w → Reach w u → Inv u
Reach-Inv v here = v
Reach-Inv v (next r st) = Step-Inv st (Reach-Inv v r)

In-claimed_row : (c : Call) (r : Row) → c.claimed ≡ some r → In r (takings c)
In-claimed_row c r e = In-append_right r c.pruned (claimed_rows c.claimed) (rw e (inl refl))

-- From a store whose generations are distinct and a state in which no call has taken anything,
-- whatever calls run and however their rounds interleave with one another, with deletes and with
-- new entries, no two calls of `claim` ever hold the same object generation.
pub claims_exclusive :
    (s : InMemoryRosterStore) (w : World)
    → IsSound s
    → Reach (record { store = s; calls = λ _. idle }) w
    → (i j : ℕ) (r q : Row) → i ≢ j
    → (w.calls i).claimed ≡ some r
    → (w.calls j).claimed ≡ some q
    → r.generation ≢ q.generation
claims_exclusive s w sound reach i j r q apart cr cq =
    (Reach-Inv
        (record { sound = sound; gone = λ _ _ m. absurd m; exclusive = λ _ _ _ _ _ m. absurd m })
        reach).exclusive
      i j r q apart (In-claimed_row (w.calls i) r cr) (In-claimed_row (w.calls j) q cq)
