-- ===== src/Base/Sorting.antt =====
-- Python's stable `sort` as an insertion sort, by a Boolean order or by a numeric key.
use harness_run.Base.{
  ℕ, ◌≤◌, ◌≡◌, ◌⊎◌, inl, inr, Bool, List, [], ◌∷◌, arith, leb, leb→le, leb_false→lt, if◌then◌else◌,
  In, All, All-mono, All-keep, Bool-cases, keep,
}

module _ {A : Type 0} (le : A → A → Bool) where
  -- Before the first element that is not smaller: equal elements keep their order.
  unfoldable pub insert_by : A → List A → List A
  insert_by x [] = x ∷ []
  insert_by x (y ∷ ys) = let rest = insert_by x ys in if le x y then x ∷ y ∷ ys else y ∷ rest

  unfoldable pub sort_by : List A → List A
  unfolding insert_by
  sort_by [] = []
  sort_by (x ∷ xs) = insert_by x (sort_by xs)

  pub All-insert_by :
      (P : A → Type 0) (x : A) (xs : List A) → P x → All P xs → All P (insert_by x xs)
  unfolding insert_by
  All-insert_by P x [] px h = (px, tt)
  All-insert_by P x (y ∷ ys) px h = ground (arith, All-insert_by P x ys px h.1)

  pub All-sort_by : (P : A → Type 0) (xs : List A) → All P xs → All P (sort_by xs)
  unfolding sort_by
  All-sort_by P [] h = tt
  All-sort_by P (x ∷ xs) h = All-insert_by P x (sort_by xs) h.0 (All-sort_by P xs h.1)

  In-insert_by : (a x : A) (xs : List A) → (a ≡ x) ⊎ In a xs → In a (insert_by x xs)
  unfolding insert_by
  In-insert_by a x [] h = h
  In-insert_by a x (y ∷ ys) h = ground (arith, In-insert_by a x ys)

  pub In-sort_by : (a : A) (xs : List A) → In a xs → In a (sort_by xs)
  unfolding sort_by
  In-sort_by a [] h = h
  In-sort_by a (x ∷ xs) (inl e) = In-insert_by a x (sort_by xs) (inl e)
  In-sort_by a (x ∷ xs) (inr m) = In-insert_by a x (sort_by xs) (inr (In-sort_by a xs m))

-- A symmetric relation between any two elements survives the sort.
module _ {A : Type 0} (R : A → A → Type 0) where
  abbrev pub Pairwise : List A → Type 0
  Pairwise [] = Unit
  Pairwise (x ∷ xs) = All (R x) xs × Pairwise xs

  pub Pairwise-keep : (p : A → Bool) (xs : List A) → Pairwise xs → Pairwise (keep p xs)
  Pairwise-keep p [] h = tt
  Pairwise-keep p (x ∷ xs) h = ground (arith, All-keep (R x) p xs h.0, Pairwise-keep p xs h.1)

  module _ (flip : (a b : A) → R a b → R b a) (le : A → A → Bool) where
    Pairwise-insert_by :
        (x : A) (xs : List A) → All (R x) xs → Pairwise xs → Pairwise (insert_by le x xs)
    unfolding insert_by
    Pairwise-insert_by x [] hx h = (tt, tt)
    Pairwise-insert_by x (y ∷ ys) hx h =
        ground
          (arith, Pairwise-insert_by x ys hx.1 h.1, All-insert_by le (R y) x ys (flip x y hx.0) h.0)

    pub Pairwise-sort_by : (xs : List A) → Pairwise xs → Pairwise (sort_by le xs)
    unfolding sort_by
    Pairwise-sort_by [] h = tt
    Pairwise-sort_by (x ∷ xs) h =
        Pairwise-insert_by x (sort_by le xs) (All-sort_by le (R x) xs h.0) (Pairwise-sort_by xs h.1)

module _ {A : Type 0} (key : A → ℕ) where
  abbrev pub by_key : A → A → Bool
  by_key a b = leb (key a) (key b)

  abbrev pub IsSorted : List A → Type 0
  IsSorted [] = Unit
  IsSorted (x ∷ xs) = All (λ y. key x ≤ key y) xs × IsSorted xs

  insert_by-IsSorted : (x : A) (xs : List A) → IsSorted xs → IsSorted (insert_by by_key x xs)
  unfolding insert_by
  insert_by-IsSorted x [] h = (tt, tt)
  insert_by-IsSorted x (y ∷ ys) h = elim (Bool-cases (leb (key x) (key y))) [
    | inl e ↦
        let low : key x ≤ key y = leb→le _ _ e in
        rw e (
          (
            low,
            All-mono (λ z. key y ≤ key z) (λ z. key x ≤ key z) ys (λ z q. omega (arith, low)) h.0,
          ),
          h,
        )
    | inr e ↦ rw e (
      All-insert_by by_key (λ z. key y ≤ key z) x ys (omega (arith, leb_false→lt _ _ e)) h.0,
      insert_by-IsSorted x ys h.1,
    )
  ]

  pub sort_by-IsSorted : (xs : List A) → IsSorted (sort_by by_key xs)
  unfolding sort_by
  sort_by-IsSorted [] = tt
  sort_by-IsSorted (x ∷ xs) = insert_by-IsSorted x (sort_by by_key xs) (sort_by-IsSorted xs)

  pub IsSorted-keep : (p : A → Bool) (xs : List A) → IsSorted xs → IsSorted (keep p xs)
  IsSorted-keep p [] h = tt
  IsSorted-keep p (x ∷ xs) h =
      ground (arith, All-keep (λ y. key x ≤ key y) p xs h.0, IsSorted-keep p xs h.1)
