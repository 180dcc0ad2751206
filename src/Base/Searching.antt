-- ===== src/Base/Searching.antt =====
-- Facts on the tests of a list's elements.
use mathlib.Core.Path.{◌≡◌, refl}
use mathlib.Core.Logic.{inl, inr}
use mathlib.Core.Bool.{Bool, true, false, not, ◌||◌}
use mathlib.Core.List.{List, [], ◌∷◌, ◌++◌}
use native.Mathlib.Omega.{arith}
use harness_run.Base.Tests.{Bool-cases}
use harness_run.Base.Lists.{In, any, all, keep}

pub any-append :
    {A : Type 0} (f : A → Bool) (xs ys : List A) → any f (xs ++ ys) ≡ any f xs || any f ys
any-append f [] ys = refl
any-append f (x ∷ xs) ys = elim (Bool-cases (f x)) [
  | inl e ↦ rw (e, any) refl
  | inr e ↦ rw (e, any) (any-append f xs ys)
]

pub any-append_left :
    {A : Type 0} (f : A → Bool) (xs ys : List A) → any f xs ≡ true → any f (xs ++ ys) ≡ true
any-append_left f [] ys h = ground arith
any-append_left f (x ∷ xs) ys h = elim (Bool-cases (f x)) [
  | inl e ↦ rw (e, any) refl
  | inr e ↦ rw (e, any) (any-append_left f xs ys (rw (e, any) at h))
]

pub any-In :
    {A : Type 0} (f : A → Bool) (a : A) (xs : List A) → In a xs → f a ≡ true → any f xs ≡ true
any-In f a [] m h = absurd m
any-In f a (x ∷ xs) (inl e) h = let q : f x ≡ true = rw e at h in rw (q, any) refl
any-In f a (x ∷ xs) (inr m) h = elim (Bool-cases (f x)) [
  | inl e ↦ rw (e, any) refl
  | inr e ↦ rw (e, any) (any-In f a xs m h)
]

pub all-In :
    {A : Type 0} (f : A → Bool) (xs : List A) → ((a : A) → In a xs → f a ≡ true) → all f xs ≡ true
all-In f [] h = refl
all-In f (x ∷ xs) h = rw (h x (inl refl), all) (all-In f xs (λ a m. h a (inr m)))

pub all-elim :
    {A : Type 0} (f : A → Bool) (a : A) (xs : List A) → all f xs ≡ true → In a xs → f a ≡ true
all-elim f a [] h m = absurd m
all-elim f a (x ∷ xs) h m = elim (Bool-cases (f x)) [
  | inl e ↦ elim m [ inl p ↦ rw p e | inr i ↦ all-elim f a xs (rw (e, all) at h) i ]
  | inr e ↦ absurd (false-true (rw (e, all) at h))
]
  where
    false-true : false ≡ true → ⊥
    false-true q = cc

pub keep-none :
    {A : Type 0} (f : A → Bool) (xs : List A)
    → ((a : A) → In a xs → f a ≡ true)
    → keep (λ a. not (f a)) xs ≡ []
keep-none f [] h = refl
keep-none f (x ∷ xs) h = rw (h x (inl refl), keep) (keep-none f xs (λ a m. h a (inr m)))
