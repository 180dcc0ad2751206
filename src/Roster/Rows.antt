-- ===== src/Roster/Rows.antt =====
-- What a listing holds, and how the loops of the roster use it up.
use harness_run.Base.{
  String, ◌≡◌, Bool, true, false, none, some, List, [], ◌∷◌, arith, ◌==◌, eq_iff, eqb,
  if◌then◌else◌, All,
}
use harness_run.Roster.{Row}
use harness_run.Roster.Store.{Object, InMemoryRosterStore, lookup, without, delete_if}

pub lookup-without :
    (k j : String) (os : List Object)
    → lookup j (without k os) ≡ (if k == j then none else lookup j os)
unfolding lookup without
lookup-without k j [] = ground arith
lookup-without k j (o ∷ os) =
    ground (arith, lookup-without k j os, eq_iff o.name k, eq_iff o.name j, eq_iff k j)

-- Whether the store still has the row's object, at the row's generation.
abbrev pub held : InMemoryRosterStore → Row → Bool
held s r = elim (lookup r.name s.objects) [ none ↦ false | some o ↦ eqb o.generation r.generation ]

-- A store without the object of that name.
abbrev pub less : InMemoryRosterStore → String → InMemoryRosterStore
less s name = record s { objects = without name s.objects }

-- `delete_if` succeeds exactly on a held row, and takes that object alone.
pub delete_if_lem :
    (s : InMemoryRosterStore) (r : Row)
    → delete_if s r.name r.generation ≡ (if held s r then (true, less s r.name) else (false, s))
unfolding delete_if
delete_if_lem s r = ground arith

abbrev pub Apart : Row → Row → Type 0
Apart a b = (a.name == b.name) ≡ false

abbrev pub Held : InMemoryRosterStore → Row → Type 0
Held s r = held s r ≡ true

pub Held-less :
    (s : InMemoryRosterStore) (a b : Row) → Apart a b → Held s b → Held (less s a.name) b
Held-less s a b h p = ground (arith, lookup-without a.name b.name s.objects)

pub All_Held-less :
    (s : InMemoryRosterStore) (a : Row) (rows : List Row)
    → All (Apart a) rows
    → All (Held s) rows
    → All (Held (less s a.name)) rows
All_Held-less s a [] h p = tt
All_Held-less s a (b ∷ rows) h p = (Held-less s a b h.0 p.0, All_Held-less s a rows h.1 p.1)
