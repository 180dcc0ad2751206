-- ===== src/Base/Texts.antt =====
-- Python's text methods over the native `String`, by recursion on its characters.
use Prim.Native.Nat.{ℕ, zero, suc}
use Prim.Native.Char.{Char, code}
use Prim.Native.String.{String}
use harness_run.Base.{
  ◌≡◌, refl, Bool, ◌||◌, ◌&&◌, Option, none, some, leb, ltb, eqb, ◌-◌, List, [], ◌∷◌, ◌/◌, ◌%◌,
  ◌<>◌, if◌then◌else◌, ◌==◌, starts_with,
}

-- `s[:n]`
unfoldable pub clip : ℕ → String → String
clip zero s = ""
clip (suc n) String.[] = ""
clip (suc n) (String.◌∷◌ c s) = String.◌∷◌ c (clip n s)

-- `len(s)`
unfoldable pub size : String → ℕ
size String.[] = 0
size (String.◌∷◌ c s) = suc (size s)

-- `s[n:]`
unfoldable pub drop_chars : ℕ → String → String
drop_chars zero s = s
drop_chars (suc n) String.[] = ""
drop_chars (suc n) (String.◌∷◌ c s) = drop_chars n s

-- `s[-n:]`, for an `n` other than 0
unfoldable pub last_chars : ℕ → String → String
unfolding drop_chars size
last_chars n s = drop_chars (size s - n) s

-- `t in s`
unfoldable pub has_text : String → String → Bool
has_text t String.[] = t == ""
has_text t (String.◌∷◌ c s) = starts_with (String.◌∷◌ c s) t || has_text t s

-- `s[s.find(c):]`, if `s` has the character.
unfoldable pub from_first : ℕ → String → Option String
from_first k String.[] = none
from_first k (String.◌∷◌ c s) =
    let rest = from_first k s in if eqb (code c) k then some (String.◌∷◌ c s) else rest

-- `s[:s.rfind(c) + 1]`, if `s` has the character.
unfoldable pub up_to_last : ℕ → String → Option String
up_to_last k String.[] = none
up_to_last k (String.◌∷◌ c s) = elim (up_to_last k s) [
  | some t ↦ some (String.◌∷◌ c t)
  | none ↦ if eqb (code c) k then some (String.◌∷◌ c String.[]) else none
]

-- `str.isspace` of one character.
abbrev pub is_space : Char → Bool
is_space c =
    let k = code c in
    (leb 9 k && leb k 13)
    || (leb 28 k && leb k 32)
    || eqb k 0x85
    || eqb k 0xa0
    || eqb k 0x1680
    || (leb 0x2000 k && leb k 0x200a)
    || eqb k 0x2028
    || eqb k 0x2029
    || eqb k 0x202f
    || eqb k 0x205f
    || eqb k 0x3000

unfoldable pub lstrip : String → String
lstrip String.[] = ""
lstrip (String.◌∷◌ c s) = let rest = lstrip s in if is_space c then rest else String.◌∷◌ c s

abbrev pub cons_unless_blank : Char → String → String
cons_unless_blank c String.[] = if is_space c then "" else String.◌∷◌ c String.[]
cons_unless_blank c (String.◌∷◌ d t) = String.◌∷◌ c (String.◌∷◌ d t)

unfoldable pub rstrip : String → String
rstrip String.[] = ""
rstrip (String.◌∷◌ c s) = cons_unless_blank c (rstrip s)

-- `s.strip()`
unfoldable pub strip : String → String
unfolding lstrip rstrip
strip s = rstrip (lstrip s)

abbrev digits : List String
digits = "0" ∷ "1" ∷ "2" ∷ "3" ∷ "4" ∷ "5" ∷ "6" ∷ "7" ∷ "8" ∷ "9" ∷ []

abbrev pick : ℕ → List String → String
pick n [] = ""
pick zero (s ∷ ss) = s
pick (suc n) (s ∷ ss) = pick n ss

-- The numeral of `n`, up to `fuel` and one digits of it.
abbrev numeral : ℕ → ℕ → String
numeral zero n = pick n digits
numeral (suc fuel) n =
    let rest = numeral fuel (n / 10) in
    if ltb n 10 then pick n digits else rest <> pick (n % 10) digits

-- `str(n)`: a number has no more digits than units, but for 0.
unfoldable pub decimal : ℕ → String
decimal n = numeral n n

decimal_of_305 : decimal 305 ≡ "305"
unfolding decimal
decimal_of_305 = refl
