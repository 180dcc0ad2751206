-- ===== src/Base/Paths.antt =====
-- Texts cut at a slash, as Python's `partition`, `rsplit(..., 1)` and `strip` do.
use Prim.Native.Char.{code}
use Prim.Native.String.{String}
use harness_run.Base.{Bool, true, false, eqb, if◌then◌else◌}

-- Whether the character is `/`.
abbrev pub is_slash : Prim.Native.Char.Char → Bool
is_slash c = eqb (code c) b'/'

abbrev pub has_slash : String → Bool
has_slash String.[] = false
has_slash (String.◌∷◌ c s) = let rest = has_slash s in if is_slash c then true else rest

-- `s.partition("/")`: what stands before the first slash, and behind it.
unfoldable pub partition_slash : String → String × String
partition_slash String.[] = ("", "")
partition_slash (String.◌∷◌ c s) =
    let (a, b) = partition_slash s in if is_slash c then ("", s) else (String.◌∷◌ c a, b)

-- `s.rsplit("/", 1)[-1]`: what stands behind the last slash, or the whole text.
unfoldable pub last_segment : String → String
last_segment String.[] = ""
last_segment (String.◌∷◌ c s) =
    let rest = last_segment s in
    if has_slash s then rest else if is_slash c then s else String.◌∷◌ c s

-- `s.lstrip("/")`
unfoldable pub lstrip_slash : String → String
lstrip_slash String.[] = ""
lstrip_slash (String.◌∷◌ c s) =
    let rest = lstrip_slash s in if is_slash c then rest else String.◌∷◌ c s

-- One step of `rstrip("/")`: a slash before nothing that is kept goes too.
abbrev pub cons_unless_bare : Prim.Native.Char.Char → String → String
cons_unless_bare c String.[] = if is_slash c then "" else String.◌∷◌ c String.[]
cons_unless_bare c (String.◌∷◌ d t) = String.◌∷◌ c (String.◌∷◌ d t)

-- `s.rstrip("/")`
unfoldable pub rstrip_slash : String → String
rstrip_slash String.[] = ""
rstrip_slash (String.◌∷◌ c s) = cons_unless_bare c (rstrip_slash s)
