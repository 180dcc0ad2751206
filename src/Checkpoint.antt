-- ===== src/Checkpoint.antt =====
-- harness_run/checkpoint: session_store.py, the transcripts of a session, and workspace.py, the
-- snapshots of its files.
pub mod Transcripts
pub mod Restoring
use harness_run.Base.{
  ℕ, String, ◌==◌, Bool, true, false, Option, none, some, List, [], ◌∷◌, ◌++◌, if◌then◌else◌, any,
  append_one,
}

-- The transcript's objects in key order. A key is a time stamp and a counter, so that a new
-- object sorts last.
abbrev pub Batches : Type 0 → Type 0
Batches Entry = List (List Entry)

module _ {Entry : Type 0} (uuid : Entry → Option String) where
  unfoldable pub append : List Entry → Batches Entry → Batches Entry
  append [] bs = bs
  append (e ∷ es) bs = append_one bs (e ∷ es)

  -- The entries whose uuid is new, or that have none.
  abbrev pub unseen : List Entry → List String → List Entry
  unseen [] seen = []
  unseen (e ∷ es) seen = elim (uuid e) [
    | none ↦ e ∷ unseen es seen
    | some u ↦ if any (λ s. s == u) seen then unseen es seen else e ∷ unseen es (append_one seen u)
  ]

  abbrev pub joined : Batches Entry → List Entry
  joined [] = []
  joined (b ∷ bs) = b ++ joined bs

  abbrev pub or_none : List Entry → Option (List Entry)
  or_none [] = none
  or_none (e ∷ es) = some (e ∷ es)

  unfoldable pub load : Batches Entry → Option (List Entry)
  load [] = none
  load (b ∷ bs) = or_none (unseen (joined (b ∷ bs)) [])

-- A working directory: missing, or with these files.
abbrev pub Workdir : Type 0
Workdir = Option (List String)

pub record RestoreResult : Type 0 where
  pub found : Bool
  pub skipped : List String

-- What `get_tree` does to the files: it extracts them, and names the members that it skipped, or
-- it raises, with what it had written by then.
pub data Extraction : Type 0 where
  extracted : List String → List String → Extraction
  failed : List String → String → Extraction

pub data Restored : Type 0 where
  restored : RestoreResult → Restored
  raised : String → Restored

abbrev pub not_found : RestoreResult
not_found = record { found = false; skipped = [] }

abbrev pub is_pristine : Workdir → Bool
is_pristine none = true
is_pristine (some []) = true
is_pristine (some (f ∷ fs)) = false

-- `restore`, given the snapshot (`none` if there is none) and how its extraction goes.
unfoldable pub restore : Option Extraction → Workdir → Restored × Workdir
restore none w = (restored not_found, w)
restore (some (extracted files skipped)) w =
    (restored (record { found = true; skipped = skipped }), some files)
restore (some (failed partial error)) w =
    (raised error, if is_pristine w then none else some partial)

abbrev pub caught : Restored → RestoreResult × Option String
caught (restored r) = (r, none)
caught (raised e) = (not_found, some e)

-- `try_restore`: a restore that raises is one that found nothing, with the error.
unfoldable pub try_restore : Option Extraction → Workdir → (RestoreResult × Option String) × Workdir
unfolding restore
try_restore x w = let (r, w') = restore x w in (caught r, w')

pub record WorkspaceReady : Type 0 where
  pub restored : Bool
  pub restore_error : Option String
  pub skipped : List String
  pub skills : List String
  pub repos : List String

unfoldable pub workspace_ready_event :
    RestoreResult → Option String → List String → List String → WorkspaceReady
workspace_ready_event r error skills repos = record {
  restored = r.found;
  restore_error = error;
  skipped = r.skipped;
  skills = skills;
  repos = repos;
}
