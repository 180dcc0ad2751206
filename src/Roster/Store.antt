-- ===== src/Roster/Store.antt =====
-- harness_run/runtime/sandbox/roster.py: the entries and `InMemoryRosterStore`, which states what the
-- roster uses of the bucket. The bytes of an object stand for what `SandboxEntry.from_json`
-- makes of them. Times are in a fixed small unit.
use Prim.Native.String.{compare}
use text.Mathlib.Text.{is_le}
use harness_run.Base.{
  ℕ, ◌+◌, String, Bool, true, false, Option, none, some, List, [], ◌∷◌, ◌==◌, starts_with, eqb,
  if◌then◌else◌, keep,
}
use harness_run.Base.Paths.{last_segment}
use harness_run.Base.Sorting.{sort_by}

pub record SandboxEntry : Type 0 where
  pub sandbox : String
  pub template : String
  pub created_at : ℕ
  pub expires_at : ℕ

-- `sandbox.rsplit("/", 1)[-1]`
unfoldable pub id : SandboxEntry → String
unfolding last_segment
id e = last_segment e.sandbox

pub data Body : Type 0 where
  entry : SandboxEntry → Body
  corrupt : Body

-- One object: its body, the `entry` value of its metadata, and its generation.
pub record Object : Type 0 where
  pub name : String
  pub body : Body
  pub inline : Option Body
  pub generation : ℕ

pub record InMemoryRosterStore : Type 0 where
  pub objects : List Object
  pub next_generation : ℕ

unfoldable pub lookup : String → List Object → Option Object
lookup k [] = none
lookup k (o ∷ os) = if o.name == k then some o else lookup k os

unfoldable pub without : String → List Object → List Object
without k [] = []
without k (o ∷ os) = let rest = without k os in if o.name == k then rest else o ∷ rest

abbrev pub name_le : Object → Object → Bool
name_le a b = is_le (compare a.name b.name)

-- `list(prefix)`: the objects under the prefix, in lexical order of their names.
unfoldable pub list : InMemoryRosterStore → String → List Object
unfolding sort_by
list s prefix = sort_by name_le (keep (λ o. starts_with o.name prefix) s.objects)

unfoldable pub get : InMemoryRosterStore → String → Option Body
get s name = elim (lookup name s.objects) [ none ↦ none | some o ↦ some o.body ]

unfoldable pub put : InMemoryRosterStore → String → Body → InMemoryRosterStore
put s name data' =
    let o : Object = record {
      name = name;
      body = data';
      inline = some data';
      generation = s.next_generation;
    } in
    record { objects = o ∷ without name s.objects; next_generation = s.next_generation + 1 }

unfoldable pub delete_if : InMemoryRosterStore → String → ℕ → Bool × InMemoryRosterStore
delete_if s name generation = elim (lookup name s.objects) [
  | none ↦ (false, s)
  | some found ↦
      if eqb found.generation generation
      then (true, record s { objects = without name s.objects })
      else (false, s)
]
