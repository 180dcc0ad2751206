-- ===== src/Roster/Generations.antt =====
-- Generations are never reused: what one delete with a precondition took, no other takes.
use harness_run.Base.{
  ℕ, ◌<◌, ◌+◌, String, ◌≡◌, ◌≢◌, true, false, some, List, [], ◌∷◌, arith, ◌==◌, All, All-mono,
  Bool-cases, Option-cases, inl, inr, ◌⊎◌, sym, subst,
}
use mathlib.Core.Bool.{false≢true}
use harness_run.Base.Sorting.{Pairwise}
use harness_run.Roster.{Row}
use harness_run.Roster.Store.{Object, InMemoryRosterStore, Body, lookup, put, delete_if, without}
use harness_run.Roster.Rows.{held, less}

abbrev pub OfAge : ℕ → Object → Type 0
OfAge g o = o.generation ≢ g

abbrev pub GenerationApart : Object → Object → Type 0
GenerationApart a b = b.generation ≢ a.generation

-- The generations in the store are distinct, and lie below the next one.
pub record IsSound (s : InMemoryRosterStore) : Type 0 where
  pub apart : Pairwise GenerationApart s.objects
  pub fresh : All (λ o. o.generation < s.next_generation) s.objects

-- The generation has been given out, and no object has it now.
pub record Gone (s : InMemoryRosterStore) (g : ℕ) : Type 0 where
  pub given : g < s.next_generation
  pub absent : All (OfAge g) s.objects

pub All-without :
    (P : Object → Type 0) (k : String) (os : List Object) → All P os → All P (without k os)
unfolding without
All-without P k [] h = tt
All-without P k (o ∷ os) h = ground (arith, All-without P k os h.1)

pub Pairwise-without :
    (R : Object → Object → Type 0) (k : String) (os : List Object)
    → Pairwise R os
    → Pairwise R (without k os)
unfolding without
Pairwise-without R k [] h = tt
Pairwise-without R k (o ∷ os) h =
    ground (arith, All-without (R o) k os h.0, Pairwise-without R k os h.1)

All-lookup :
    (P : Object → Type 0) (k : String) (os : List Object) (o : Object)
    → All P os
    → lookup k os ≡ some o
    → P o
unfolding lookup
All-lookup P k [] o h e = cc
All-lookup P k (x ∷ os) o h e = elim (Bool-cases (x.name == k)) [
  | inl q ↦ let same : x ≡ o = ground arith in rw (← same) h.0
  | inr q ↦ All-lookup P k os o h.1 (rw q at e)
]

absent-without :
    (k : String) (os : List Object) (o : Object)
    → Pairwise GenerationApart os
    → lookup k os ≡ some o
    → All (OfAge o.generation) (without k os)
unfolding lookup without
absent-without k [] o p e = tt
absent-without k (x ∷ os) o p e = elim (Bool-cases (x.name == k)) [
  | inl q ↦
      let same : x ≡ o = ground arith in
      rw (q, All)
        (subst (λ z. All (OfAge z.generation) (without k os)) same
          (All-without (OfAge x.generation) k os p.0))
  | inr q ↦
      let found = rw q at e in
      rw (q, All)
        (
          (λ same. All-lookup (GenerationApart x) k os o p.0 found (sym same)),
          absent-without k os o p.1 found,
        )
]

-- A row whose generation is gone cannot be deleted.
pub held-Gone : (s : InMemoryRosterStore) (r : Row) → Gone s r.generation → held s r ≡ false
held-Gone s r g = elim (Option-cases (lookup r.name s.objects)) [
  | inl e ↦ rw (e, held)
  | inr (o, e) ↦
      let other = All-lookup (OfAge r.generation) r.name s.objects o g.absent e in
      rw (e, held) (ground arith)
]

module _ (s : InMemoryRosterStore) (name : String) where
  pub less-IsSound : IsSound s → IsSound (less s name)
  less-IsSound v = record {
    apart = Pairwise-without GenerationApart name s.objects v.apart;
    fresh = All-without (λ o. o.generation < s.next_generation) name s.objects v.fresh;
  }

  pub Gone-less : (g : ℕ) → Gone s g → Gone (less s name) g
  Gone-less g v = record { given = v.given; absent = All-without (OfAge g) name s.objects v.absent }

module _ (s : InMemoryRosterStore) (r : Row) where
  pub Gone-less_self : IsSound s → held s r ≡ true → Gone (less s r.name) r.generation
  Gone-less_self v h = elim (Option-cases (lookup r.name s.objects)) [
    | inl e ↦ absurd (false≢true (rw (e, held) at h))
    | inr (o, e) ↦
        let same : o.generation ≡ r.generation = ground arith in
        record {
          given =
              rw (← same)
                (All-lookup (λ x. x.generation < s.next_generation) r.name s.objects o v.fresh e);
          absent = rw (← same) (absent-without r.name s.objects o v.apart e);
        }
  ]

module _ (s : InMemoryRosterStore) (name : String) (generation : ℕ) where
  -- `delete_if` takes the object of that name or leaves the store alone.
  delete_if-or :
      (delete_if s name generation ≡ (true, less s name))
      ⊎ (delete_if s name generation ≡ (false, s))
  unfolding delete_if
  delete_if-or = ground arith

  delete_if-cases :
      (P : InMemoryRosterStore → Type 0) → P s → P (less s name) → P (delete_if s name generation).1
  delete_if-cases P same taken = elim delete_if-or [ inl e ↦ rw e taken | inr e ↦ rw e same ]

  pub delete_if-IsSound : IsSound s → IsSound (delete_if s name generation).1
  delete_if-IsSound v = delete_if-cases IsSound v (less-IsSound s name v)

  pub Gone-delete_if : (g : ℕ) → Gone s g → Gone (delete_if s name generation).1 g
  Gone-delete_if g v = delete_if-cases (λ t. Gone t g) v (Gone-less s name g v)

module _ (s : InMemoryRosterStore) (name : String) (body : Body) where
  pub put-IsSound : IsSound s → IsSound (put s name body)
  unfolding put
  put-IsSound v = record {
    apart = (
      All-mono (λ o. o.generation < s.next_generation) (λ o. o.generation ≢ s.next_generation)
          (without name s.objects) (λ o h e. omega arith)
          (All-without (λ o. o.generation < s.next_generation) name s.objects v.fresh),
      Pairwise-without GenerationApart name s.objects v.apart,
    );
    fresh = (
      omega arith,
      All-mono (λ o. o.generation < s.next_generation) (λ o. o.generation < s.next_generation + 1)
          (without name s.objects) (λ o h. omega arith)
          (All-without (λ o. o.generation < s.next_generation) name s.objects v.fresh),
    );
  }

  pub Gone-put : (g : ℕ) → Gone s g → Gone (put s name body) g
  unfolding put
  Gone-put g v = record {
    given = omega (arith, v.given);
    absent = ((λ e. omega (arith, v.given)), All-without (OfAge g) name s.objects v.absent);
  }
