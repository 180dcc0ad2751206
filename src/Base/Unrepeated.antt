-- ===== src/Base/Unrepeated.antt =====
-- Lists of pairwise different elements, and appending one element.
use mathlib.Core.Path.{◌≡◌, refl, sym}
use mathlib.Core.Logic.{inl, inr}
use mathlib.Core.Bool.{true, false}
use mathlib.Core.List.{List, [], ◌∷◌, ◌++◌, map}
use Prim.Native.String.{String}
use text.Mathlib.Text.{◌==◌}
use text.Mathlib.TextEquality.{eq_iff}
use text.Mathlib.TextPositions.{eq_refl}
use native.Mathlib.Omega.{arith}
use harness_run.Base.Tests.{Bool-cases}
use harness_run.Base.Lists.{In, append_one, any, In-append-cases}

pub append-nil : {A : Type 0} (xs : List A) → xs ++ [] ≡ xs
append-nil [] = refl
append-nil (x ∷ xs) = rw (append-nil xs) refl

pub append_assoc : {A : Type 0} (xs ys zs : List A) → (xs ++ ys) ++ zs ≡ xs ++ (ys ++ zs)
append_assoc [] ys zs = refl
append_assoc (x ∷ xs) ys zs = rw (append_assoc xs ys zs) refl

pub append_one-append :
    {A : Type 0} (xs : List A) (a : A) (ys : List A) → append_one xs a ++ ys ≡ xs ++ (a ∷ ys)
append_one-append [] a ys = refl
append_one-append (x ∷ xs) a ys = rw (append_one-append xs a ys) refl

pub map-append_one :
    {A B : Type 0} (f : A → B) (xs : List A) (a : A)
    → map f (append_one xs a) ≡ append_one (map f xs) (f a)
map-append_one f [] a = refl
map-append_one f (x ∷ xs) a = rw (map-append_one f xs a) refl

abbrev pub Distinct : {A : Type 0} → List A → Type 0
Distinct [] = Unit
Distinct (x ∷ xs) = (In x xs → ⊥) × Distinct xs

pub append_one-Distinct :
    {A : Type 0} (xs : List A) (a : A) → (In a xs → ⊥) → Distinct xs → Distinct (append_one xs a)
append_one-Distinct [] a h d = (λ m. m, tt)
append_one-Distinct (x ∷ xs) a h d = (
  λ m. elim (In-append-cases x xs (a ∷ []) m) [
    | inl i ↦ d.0 i
    | inr i ↦ elim i [ inl e ↦ h (inl (rw e refl)) | inr f ↦ absurd f ]
  ],
  append_one-Distinct xs a (λ m. h (inr m)) d.1,
)

-- The test that a text is among others.
pub any-false-In : (s : String) (xs : List String) → any (λ t. t == s) xs ≡ false → In s xs → ⊥
any-false-In s [] h m = m
any-false-In s (x ∷ xs) h m = elim (Bool-cases (x == s)) [
  | inl e ↦ absurd (true-false (rw e at h))
  | inr e ↦ elim m [
    | inl p ↦ absurd (true-false (rw (p, eq_refl) at e))
    | inr i ↦ any-false-In s xs (rw e at h) i
  ]
]
  where
    true-false : true ≡ false → ⊥
    true-false q = cc

pub any-true-In : (s : String) (xs : List String) → any (λ t. t == s) xs ≡ true → In s xs
any-true-In s [] h = ground arith
any-true-In s (x ∷ xs) h = elim (Bool-cases (x == s)) [
  | inl e ↦ inl (sym ((eq_iff x s).0 e))
  | inr e ↦ inr (any-true-In s xs (rw e at h))
]
