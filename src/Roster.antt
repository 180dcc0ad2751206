-- ===== src/Roster.antt =====
-- harness_run/runtime/sandbox/roster.py: `PoolRoster`, the ready pool's roster of idle sandboxes.
pub mod Store
pub mod Rows
pub mod Reading
pub mod Generations
pub mod Claiming
pub mod Race
pub mod Pruning
use harness_run.Base.{
  ℕ, ◌+◌, ◌<>◌, ◌&&◌, String, Bool, true, false, Option, none, some, List, [], ◌∷◌, ◌++◌, leb,
  if◌then◌else◌, map,
}
use harness_run.Base.Sorting.{sort_by, by_key}
use Store.{
  SandboxEntry, id, Body, entry, corrupt, Object, InMemoryRosterStore, list, get, put, delete_if,
}

-- What `_read` collects of one object.
pub record Row : Type 0 where
  pub name : String
  pub generation : ℕ
  pub entry : SandboxEntry

-- `inline.encode() if inline else self._store.get(name)`
data_of : InMemoryRosterStore → Object → Option Body
data_of s o = elim o.inline [ some inline ↦ some inline | none ↦ get s o.name ]

-- An object that is gone by now or is corrupt gives no row.
row_of : Object → Option Body → Option Row
row_of o none = none
row_of o (some corrupt) = none
row_of o (some (entry e)) = some (record { name = o.name; generation = o.generation; entry = e })

rows_of : InMemoryRosterStore → List Object → List Row
unfolding data_of row_of
rows_of s [] = []
rows_of s (o ∷ os) =
    let rest = rows_of s os in elim (row_of o (data_of s o)) [ none ↦ rest | some r ↦ r ∷ rest ]

abbrev pub created : Row → ℕ
created r = r.entry.created_at

unfoldable pub read : InMemoryRosterStore → String → List Row
unfolding rows_of sort_by list get
read s prefix = sort_by (by_key created) (rows_of s (list s prefix))

abbrev pub entry_of : Row → SandboxEntry
entry_of r = r.entry

unfoldable pub entries : InMemoryRosterStore → String → List SandboxEntry
unfolding read
entries s prefix = map entry_of (read s prefix)

unfoldable pub key : String → String → String
key prefix sandbox_id = prefix <> sandbox_id <> ".json"

-- `add`, for the entry with that id
unfoldable pub add : InMemoryRosterStore → String → SandboxEntry → InMemoryRosterStore
unfolding key put id
add s prefix e = put s (key prefix (id e)) (entry e)

delete_all : InMemoryRosterStore → List Object → InMemoryRosterStore
delete_all s [] = s
delete_all s (o ∷ os) = delete_all (delete_if s o.name o.generation).1 os

-- `remove`: whatever lies under the sandbox's key goes.
unfoldable pub remove : InMemoryRosterStore → String → String → InMemoryRosterStore
unfolding key list delete_all delete_if
remove s prefix sandbox_id = delete_all s (list s (key prefix sandbox_id))

-- The variables of `claim`'s loop, and of the loops of `prune_expired` and `clear`.
pub record Claim : Type 0 where
  pub store : InMemoryRosterStore
  pub claimed : Option Row
  pub pruned : List Row

-- One round of `claim`'s loop.
unfoldable pub claim_row : ℕ → ℕ → Row → Claim → Claim
unfolding delete_if
claim_row now margin_s row c =
    let (deleted, store') = delete_if c.store row.name row.generation in
    if leb row.entry.expires_at (now + margin_s)
    then (if deleted then record c { store = store'; pruned = c.pruned ++ row ∷ [] } else c)
    else elim c.claimed [
      | some taken ↦ c
      | none ↦ if deleted then record c { store = store'; claimed = some row } else c
    ]

unfoldable pub claim_rows : ℕ → ℕ → List Row → Claim → Claim
claim_rows now margin_s [] c = c
claim_rows now margin_s (row ∷ rows) c = claim_rows now margin_s rows (claim_row now margin_s row c)

unfoldable pub claim : InMemoryRosterStore → String → ℕ → ℕ → Claim
unfolding claim_rows claim_row read
claim s prefix now margin_s =
    claim_rows now margin_s (read s prefix) (record { store = s; claimed = none; pruned = [] })

-- The rounds of `prune_expired` and `clear`: the rows that pass the test are deleted.
unfoldable pub delete_rows :
    (Row → Bool) → List Row → InMemoryRosterStore → List Row → InMemoryRosterStore × List Row
unfolding delete_if
delete_rows test [] s gone = (s, gone)
delete_rows test (row ∷ rows) s gone =
    let (deleted, s') = delete_if s row.name row.generation in
    let hit : Bool = test row && deleted in
    delete_rows test rows (if hit then s' else s) (if hit then gone ++ row ∷ [] else gone)

abbrev pub expired_at : ℕ → Row → Bool
expired_at now row = leb row.entry.expires_at now

unfoldable pub prune_expired : InMemoryRosterStore → String → ℕ → InMemoryRosterStore × List Row
unfolding read delete_rows
prune_expired s prefix now = delete_rows (expired_at now) (read s prefix) s []

unfoldable pub clear : InMemoryRosterStore → String → InMemoryRosterStore × List Row
unfolding read delete_rows
clear s prefix = delete_rows (λ _. true) (read s prefix) s []
