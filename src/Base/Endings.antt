-- ===== src/Base/Endings.antt =====
-- Lists that end at the first element of a kind.
use mathlib.Core.Path.{◌≡◌}
use mathlib.Core.Bool.{Bool, true, false}
use mathlib.Core.List.{List, [], ◌∷◌, ◌++◌}
use harness_run.Base.Lists.{All, All-append, append_one}

module _ {A : Type 0} (p : A → Bool) where
  -- None of the elements is one.
  abbrev pub IsOpen : List A → Type 0
  IsOpen xs = All (λ x. p x ≡ false) xs

  -- The last element is one, and no other is.
  pub data IsEnded : List A → Type 0 where
    last : {x : A} → p x ≡ true → IsEnded (x ∷ [])
    before : {x : A} {xs : List A} → p x ≡ false → IsEnded xs → IsEnded (x ∷ xs)

  pub append-IsEnded : (xs ys : List A) → IsOpen xs → IsEnded ys → IsEnded (xs ++ ys)
  append-IsEnded [] ys h k = k
  append-IsEnded (x ∷ xs) ys h k = before h.0 (append-IsEnded xs ys h.1 k)

  pub append_one-IsEnded :
      (xs : List A) (x : A) → IsOpen xs → p x ≡ true → IsEnded (append_one xs x)
  append_one-IsEnded xs x h k = append-IsEnded xs (x ∷ []) h (last k)

  pub append_one-IsOpen : (xs : List A) (x : A) → IsOpen xs → p x ≡ false → IsOpen (append_one xs x)
  append_one-IsOpen xs x h k = All-append (λ y. p y ≡ false) xs (x ∷ []) h (k, tt)
