-- ===== src/Roster/Reading.antt =====
-- What `_read` gives of a store in which no name stands twice.
use harness_run.Base.{
  ◌<◌, String, ◌≡◌, false, Option, none, some, List, [], ◌∷◌, arith, ◌==◌, eq_iff, eq_refl, All,
  All-mono, All-keep, Option-cases, inl, inr,
}
use harness_run.Base.Sorting.{
  Pairwise, Pairwise-keep, Pairwise-sort_by, All-sort_by, IsSorted, sort_by-IsSorted, by_key,
}
use harness_run.Roster.{Row, read, rows_of, row_of, data_of, created}
use harness_run.Roster.Store.{
  Object, InMemoryRosterStore, Body, corrupt, entry, lookup, list, name_le,
}
use harness_run.Roster.Rows.{Apart, Held}

abbrev pub NameApart : Object → Object → Type 0
NameApart a b = (a.name == b.name) ≡ false

-- A dict's keys are distinct, and every generation given out lies below the next one.
pub record IsValid (s : InMemoryRosterStore) : Type 0 where
  pub names : Pairwise NameApart s.objects
  pub fresh : All (λ o. o.generation < s.next_generation) s.objects

abbrev pub Found : List Object → Object → Type 0
Found os o = lookup o.name os ≡ some o

pub eq_comm_false : (a b : String) → (a == b) ≡ false → (b == a) ≡ false
eq_comm_false a b h = ground (arith, eq_iff a b, eq_iff b a)

Found-cons :
    (x : Object) (os l : List Object)
    → All (NameApart x) l
    → All (Found os) l
    → All (Found (x ∷ os)) l
unfolding lookup
Found-cons x os [] a h = tt
Found-cons x os (o ∷ l) a h = (rw (a.0) h.0, Found-cons x os l a.1 h.1)

All-Found : (os : List Object) → Pairwise NameApart os → All (Found os) os
unfolding lookup
All-Found [] p = tt
All-Found (x ∷ os) p = (rw (eq_refl x.name), Found-cons x os os p.0 (All-Found os p.1))

-- A row stands for an object of its name and generation.
row_of_fits :
    (o : Object) (d : Option Body) (r : Row)
    → row_of o d ≡ some r
    → (r.name ≡ o.name) × (r.generation ≡ o.generation)
unfolding row_of
row_of_fits o none r h = ground arith
row_of_fits o (some corrupt) r h = ground arith
row_of_fits o (some (entry e)) r h = ground arith

All-rows_of :
    (P : Row → Type 0) (s : InMemoryRosterStore) (os : List Object)
    → All (λ o. (r : Row) → row_of o (data_of s o) ≡ some r → P r) os
    → All P (rows_of s os)
unfolding rows_of
All-rows_of P s [] h = tt
All-rows_of P s (o ∷ os) h = elim (Option-cases (row_of o (data_of s o))) [
  | inl e ↦ rw (e, All) (All-rows_of P s os h.1)
  | inr (r, e) ↦ rw (e, All) (h.0 r e, All-rows_of P s os h.1)
]

Held-rows_of :
    (s : InMemoryRosterStore) (os : List Object)
    → All (Found s.objects) os
    → All (Held s) (rows_of s os)
Held-rows_of s os h =
    All-rows_of (Held s) s os (
      All-mono (Found s.objects) _ os (λ o f r e. ground (arith, row_of_fits o (data_of s o) r e))
        h)

Apart-rows_of :
    (s : InMemoryRosterStore) (os : List Object)
    → Pairwise NameApart os
    → Pairwise Apart (rows_of s os)
unfolding rows_of
Apart-rows_of s [] p = tt
Apart-rows_of s (o ∷ os) p = elim (Option-cases (row_of o (data_of s o))) [
  | inl e ↦ rw (e, Pairwise) (Apart-rows_of s os p.1)
  | inr (r, e) ↦
      rw (e, Pairwise)
        (
          All-rows_of (Apart r) s os (
              All-mono (NameApart o) _ os
                (λ o' a r' e'.
                  ground
                    (arith, row_of_fits o (data_of s o) r e, row_of_fits o' (data_of s o') r' e'))
                p.0),
          Apart-rows_of s os p.1,
        )
]

module _ (s : InMemoryRosterStore) (prefix : String) (v : IsValid s) where
  pub Held-read : All (Held s) (read s prefix)
  unfolding read list
  Held-read = All-sort_by (by_key created) (Held s) _ (
      Held-rows_of s _ (
        All-sort_by name_le (Found s.objects) _
          (All-keep (Found s.objects) _ s.objects (All-Found s.objects v.names))))

  pub Apart-read : Pairwise Apart (read s prefix)
  unfolding read list
  Apart-read =
      Pairwise-sort_by Apart (λ a b. eq_comm_false a.name b.name) (by_key created) _
        (Apart-rows_of s _ (
          Pairwise-sort_by NameApart (λ a b. eq_comm_false a.name b.name) name_le _
            (Pairwise-keep NameApart _ s.objects v.names)))

pub read-IsSorted : (s : InMemoryRosterStore) (prefix : String) → IsSorted created (read s prefix)
unfolding read
read-IsSorted s prefix = sort_by-IsSorted created (rows_of s (list s prefix))
