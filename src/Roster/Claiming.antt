-- ===== src/Roster/Claiming.antt =====
-- What `claim` takes, on one client's view.
use harness_run.Base.{
  ℕ, ◌≤◌, ◌<◌, String, ◌≡◌, refl, inl, inr, sym, Option-cases, ◌∙◌, Bool, true, false, not, Option,
  none, some, List, [], ◌∷◌, ◌++◌, arith, ◌==◌, if◌then◌else◌, keep, head?, In, All, All-In,
  Bool-cases, ◌+◌, any, ◌||◌,
}
use harness_run.Base.Sorting.{Pairwise, IsSorted}
use mathlib.Core.List.{append_assoc, append-nil}
use mathlib.Core.Option.{or_else}
use harness_run.Roster.{created, Row, Claim, claim_row, claim_rows, claim, read, expired_at}
use harness_run.Roster.Store.{InMemoryRosterStore, lookup}
use harness_run.Roster.Reading.{IsValid, Held-read, Apart-read, read-IsSorted}
use harness_run.Roster.Rows.{lookup-without, held, less, delete_if_lem, Apart, Held, All_Held-less}

abbrev pub live_at : ℕ → Row → Bool
live_at now row = not (expired_at now row)

module _ (now margin_s : ℕ) where
  abbrev pub dead : Row → Bool
  dead = expired_at (now + margin_s)

  abbrev pub live : Row → Bool
  live = live_at (now + margin_s)

  pub claim_row-dead :
      (row : Row) (c : Claim)
      → Held c.store row
      → dead row ≡ true
      → claim_row now margin_s row c ≡ record {
        store = less c.store row.name;
        claimed = c.claimed;
        pruned = c.pruned ++ row ∷ [];
      }
  unfolding claim_row
  claim_row-dead row c h d = ground (arith, delete_if_lem c.store row)

  pub claim_row_taken :
      (row : Row) (c : Claim) {r : Row}
      → dead row ≡ false
      → c.claimed ≡ some r
      → claim_row now margin_s row c ≡ c
  unfolding claim_row
  claim_row_taken row c d t = ground arith

  pub claim_row_free :
      (row : Row) (c : Claim)
      → Held c.store row
      → dead row ≡ false
      → c.claimed ≡ none
      → claim_row now margin_s row c
        ≡ record { store = less c.store row.name; claimed = some row; pruned = c.pruned }
  unfolding claim_row
  claim_row_free row c h d t = ground (arith, delete_if_lem c.store row)

  pub claim_row_lost :
      (row : Row) (c : Claim) → held c.store row ≡ false → claim_row now margin_s row c ≡ c
  unfolding claim_row
  claim_row_lost row c h = ground (arith, delete_if_lem c.store row)

  abbrev Takes : List Row → Claim → Type 0
  Takes rows c =
      ((claim_rows now margin_s rows c).claimed ≡ or_else c.claimed (head? (keep live rows)))
      × ((claim_rows now margin_s rows c).pruned ≡ c.pruned ++ keep dead rows)

  claim_rows_lem :
      (rows : List Row) (c : Claim) → All (Held c.store) rows → Pairwise Apart rows → Takes rows c
  unfolding claim_rows or_else
  claim_rows_lem [] c h p = (ground arith, sym (append-nil c.pruned))
  claim_rows_lem (row ∷ rows) c h p = elim (Bool-cases (dead row)) [
    | inl d ↦
        let c' : Claim = record {
          store = less c.store row.name;
          claimed = c.claimed;
          pruned = c.pruned ++ row ∷ [];
        } in
        let ih = claim_rows_lem rows c' (All_Held-less c.store row rows p.0 h.1) p.1 in
        ground (
          arith,
          claim_row-dead row c h.0 d,
          ih.0,
          ih.1,
          append_assoc c.pruned (row ∷ []) (keep dead rows),
        )
    | inr d ↦ elim (Option-cases c.claimed) [
      | inl t ↦
          let c' : Claim = record {
            store = less c.store row.name;
            claimed = some row;
            pruned = c.pruned;
          } in
          let ih = claim_rows_lem rows c' (All_Held-less c.store row rows p.0 h.1) p.1 in
          ground (arith, claim_row_free row c h.0 d t, ih.0, ih.1)
      | inr (r, t) ↦
          let ih = claim_rows_lem rows c h.1 p.1 in
          ground (arith, claim_row_taken row c d t, ih.0, ih.1)
    ]
  ]

-- Whether one of the rows has this name.
abbrev pub named : String → List Row → Bool
named j = any (λ r. r.name == j)

abbrev pub claimed_rows : Option Row → List Row
claimed_rows none = []
claimed_rows (some r) = r ∷ []

pub any-append : (p : Row → Bool) (xs ys : List Row) → any p (xs ++ ys) ≡ (any p xs || any p ys)
any-append p [] ys = refl
any-append p (x ∷ xs) ys = ground (arith, any-append p xs ys)

-- What is gone from the store is what the client has.
abbrev Accounts : InMemoryRosterStore → Claim → Type 0
Accounts s c =
    (j : String)
    → lookup j c.store.objects
      ≡ (if named j (c.pruned ++ claimed_rows c.claimed) then none else lookup j s.objects)

module _ (s : InMemoryRosterStore) (now margin_s : ℕ) where
  claim_row-Accounts :
      (row : Row) (c : Claim) → Accounts s c → Accounts s (claim_row now margin_s row c)
  unfolding claim_row
  claim_row-Accounts row c h j = ground (
    arith,
    delete_if_lem c.store row,
    h j,
    lookup-without row.name j c.store.objects,
    any-append (λ r. r.name == j) c.pruned (claimed_rows c.claimed),
    any-append (λ r. r.name == j) (c.pruned ++ row ∷ []) (claimed_rows c.claimed),
    any-append (λ r. r.name == j) c.pruned (row ∷ []),
  )

  claim_rows-Accounts :
      (rows : List Row) (c : Claim) → Accounts s c → Accounts s (claim_rows now margin_s rows c)
  unfolding claim_rows
  claim_rows-Accounts [] c h = h
  claim_rows-Accounts (row ∷ rows) c h =
      claim_rows-Accounts rows (claim_row now margin_s row c) (claim_row-Accounts row c h)

-- The first of sorted rows to pass a test has the least key of those that pass it.
head?-keep_least :
    (p : Row → Bool) (rows : List Row) (r : Row)
    → IsSorted created rows
    → head? (keep p rows) ≡ some r
    → (p r ≡ true) × ((o : Row) → In o rows → p o ≡ true → created r ≤ created o)
head?-keep_least p [] r h e = cc
head?-keep_least p (x ∷ rows) r h e = elim (Bool-cases (p x)) [
  | inl px ↦ let same : x ≡ r = ground arith in rw (← same) (px, λ o m po. least o m)
  | inr px ↦
      let ih = head?-keep_least p rows r h.1 (rw px at e) in (ih.0, λ o m po. later ih.1 px o m po)
]
  where
    least : (o : Row) → In o (x ∷ rows) → created x ≤ created o
    least o (inl q) = rw q (omega arith)
    least o (inr m) = All-In (λ y. created x ≤ created y) rows h.0 m

    later :
        ((o : Row) → In o rows → p o ≡ true → created r ≤ created o)
        → p x ≡ false
        → (o : Row) → In o (x ∷ rows)
        → p o ≡ true
        → created r ≤ created o
    later ih px o (inl q) po = absurd (grind arith)
    later ih px o (inr m) po = ih o m po

module _ (s : InMemoryRosterStore) (prefix : String) (now margin_s : ℕ) where
  -- In a store whose names are distinct, `claim` takes the first row of `_read` that does not
  -- expire within the margin, or nothing if there is none, and prunes exactly the rows that do,
  -- in `_read`'s order.
  pub claim_takes :
      IsValid s
      → ((claim s prefix now margin_s).claimed
          ≡ head? (keep (live_at (now + margin_s)) (read s prefix)))
        × ((claim s prefix now margin_s).pruned
            ≡ keep (expired_at (now + margin_s)) (read s prefix))
  unfolding claim or_else
  claim_takes v =
      claim_rows_lem now margin_s (read s prefix)
        (record { store = s; claimed = none; pruned = [] }) (Held-read s prefix v)
        (Apart-read s prefix v)

  -- After `claim` an object is gone if a row that it returned, claimed or pruned, has its name,
  -- and is as it was otherwise.
  claim_leaves :
      (j : String)
      → let c = claim s prefix now margin_s in
        lookup j c.store.objects
        ≡ (if named j (c.pruned ++ claimed_rows c.claimed) then none else lookup j s.objects)
  unfolding claim
  claim_leaves j =
      claim_rows-Accounts s now margin_s (read s prefix)
        (record { store = s; claimed = none; pruned = [] }) (λ k. refl) j

  -- The claimed sandbox outlives the margin, and none of those that `_read` lists and that
  -- outlive it too was created before it.
  claim_oldest :
      IsValid s
      → (r : Row) → (claim s prefix now margin_s).claimed ≡ some r
      → (now + margin_s < r.entry.expires_at)
        × ((o : Row)
            → In o (read s prefix)
            → now + margin_s < o.entry.expires_at
            → r.entry.created_at ≤ o.entry.created_at)
  claim_oldest v r h =
      let first =
        head?-keep_least (live_at (now + margin_s)) (read s prefix) r (read-IsSorted s prefix)
          (sym (claim_takes v).0 ∙ h) in
      (ground (arith, first.0), λ o m late. first.1 o m (ground arith))
