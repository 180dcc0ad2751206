-- ===== src/Codex/Threads.antt =====
-- harness_run/harness/codex.py: the persisted thread of a conversation: `_rollout_destination`,
-- `_persist_thread` and `_restore_thread`.
pub mod Confined
pub mod Kept
use harness_run.Base.{
  String, ◌<>◌, ◌==◌, Bool, true, false, not, ◌&&◌, ◌||◌, Option, none, some, List, [], ◌∷◌, ◌++◌,
  any, if◌then◌else◌, starts_with,
}
use harness_run.Base.Texts.{has_text}
use harness_run.Base.Paths.{is_slash}

-- What a text is split into at each `/`: its first piece and the others.
pieces : String → String × List String
pieces String.[] = ("", [])
pieces (String.◌∷◌ c s) =
    let rest = pieces s in
    if is_slash c then ("", rest.0 ∷ rest.1) else (String.◌∷◌ c rest.0, rest.1)

kept_parts : List String → List String
kept_parts [] = []
kept_parts (p ∷ ps) = let rest = kept_parts ps in if p == "" || p == "." then rest else p ∷ rest

-- `Path(text).parts` of a relative path
unfoldable pub parts : String → List String
unfolding pieces kept_parts
parts s = let ps = pieces s in kept_parts (ps.0 ∷ ps.1)

-- Whether `name` ends with `t`, behind at least one character.
ends_behind : String → String → Bool
ends_behind t String.[] = false
ends_behind t (String.◌∷◌ c s) = s == t || ends_behind t s

-- `path.suffix == ".jsonl"`, of the path's last part
is_jsonl : List String → Bool
unfolding ends_behind
is_jsonl [] = false
is_jsonl (p ∷ []) = ends_behind ".jsonl" p
is_jsonl (p ∷ q ∷ ps) = is_jsonl (q ∷ ps)

-- `path.parts and path.parts[0] == "sessions"`
of_sessions : List String → Bool
of_sessions [] = false
of_sessions (p ∷ ps) = p == "sessions"

-- The tests of `_rollout_destination` before it resolves anything.
unfoldable pub is_safe : String → Bool
unfolding parts of_sessions is_jsonl has_text
is_safe relpath =
    not (has_text "\\" relpath)
    && (not (starts_with relpath "/")
        && (not (any (λ p. p == "..") (parts relpath))
            && (of_sessions (parts relpath) && is_jsonl (parts relpath))))

-- `path.is_relative_to(root)`, on the parts of both
unfoldable pub is_relative_to : List String → List String → Bool
is_relative_to path [] = true
is_relative_to [] (r ∷ root) = false
is_relative_to (p ∷ path) (r ∷ root) = p == r && is_relative_to path root

-- What the file system says: `codex_home.resolve()` and `(codex_home / path).resolve()`, or
-- nothing where they raise an `OSError`, and whether a directory can be made and a file written at a path.
pub record Files : Type 0 where
  pub home : Option (List String)
  pub resolve : List String → Option (List String)
  pub takes : List String → Bool

-- `dest`, if it is under `sessions`
unfoldable pub confined : List String → List String → Option (List String)
unfolding is_relative_to
confined sessions dest = if is_relative_to dest sessions then some dest else none

unfoldable pub resolved : Files → List String → Option (List String)
unfolding confined
resolved files path = elim files.home [
  | none ↦ none
  | some home ↦ elim (files.resolve path) [
    | none ↦ none
    | some dest ↦ confined (home ++ ("sessions" ∷ [])) dest
  ]
]

-- A `relpath` that is no text is `none`.
unfoldable pub rollout_destination : Files → Option String → Option (List String)
unfolding is_safe resolved parts
rollout_destination files none = none
rollout_destination files (some relpath) =
    if is_safe relpath then resolved files (parts relpath) else none

-- `get_bytes`: the object, a `KeyError`, or another exception.
pub data BlobRead : Type 0 where
  bytes : String → BlobRead
  no_object : BlobRead
  failed : BlobRead

-- `meta.json`: its `thread_id` and `relpath`, where they are texts.
pub record Meta : Type 0 where
  pub thread_id : Option String
  pub relpath : Option String

abbrev pub meta : String → String → Meta
meta thread_id rel = record { thread_id = some thread_id; relpath = some rel }

unfoldable pub meta_key : String → String
meta_key sid = "codex-threads/" <> sid <> "/meta.json"

unfoldable pub rollout_key : String → String
rollout_key sid = "codex-threads/" <> sid <> "/rollout.jsonl"

pub data Restored : Type 0 where
  fresh : Restored
  resumed : String → Restored
  raised : String → Restored

-- The conversation, and the file that was written, at the parts of its path.
pub record Restoration : Type 0 where
  pub result : Restored
  pub written : Option (List String × String)

abbrev pub unwritten : Restored → Restoration
unwritten r = record { result = r; written = none }

unfoldable pub write_rollout : Files → String → List String → BlobRead → Restoration
write_rollout files thread_id dest (bytes body) =
    if files.takes dest
    then record { result = resumed thread_id; written = some (dest, body) }
    else unwritten (raised "OSError")
write_rollout files thread_id dest no_object =
    unwritten (raised "Codex checkpoint rollout could not be read")
write_rollout files thread_id dest failed =
    unwritten (raised "Codex checkpoint rollout could not be read")

unfoldable pub at_destination : Files → String → BlobRead → Option (List String) → Restoration
unfolding write_rollout
at_destination files thread_id rollout none = unwritten fresh
at_destination files thread_id rollout (some dest) = write_rollout files thread_id dest rollout

unfoldable pub with_meta : Files → BlobRead → Option Meta → Restoration
unfolding at_destination rollout_destination
with_meta files rollout none = unwritten (raised "Codex checkpoint metadata is invalid")
with_meta files rollout (some m) = elim m.thread_id [
  | none ↦ unwritten (raised "Codex checkpoint metadata is invalid")
  | some thread_id ↦
      if thread_id == ""
      then unwritten (raised "Codex checkpoint metadata is invalid")
      else at_destination files thread_id rollout (rollout_destination files m.relpath)
]

unfoldable pub with_raw : (String → Option Meta) → Files → BlobRead → BlobRead → Restoration
unfolding with_meta
with_raw loads files rollout no_object = unwritten fresh
with_raw loads files rollout failed =
    unwritten (raised "Codex checkpoint metadata could not be read")
with_raw loads files rollout (bytes raw) = with_meta files rollout (loads raw)

-- `loads` gives nothing where the object is no JSON object.
unfoldable pub restore_thread :
    (String → Option Meta) → Files → (String → BlobRead) → String → Restoration
unfolding with_raw meta_key rollout_key
restore_thread loads files blobs resume_sid =
    with_raw loads files (blobs (rollout_key resume_sid)) (blobs (meta_key resume_sid))

-- `put_bytes`, of a write that the store takes
unfoldable pub put_bytes : (String → BlobRead) → String → String → String → BlobRead
put_bytes blobs key body k = if k == key then bytes body else blobs k

-- The rollout's path below the home, and its bytes; nothing where there is no rollout, and the call
-- raises.
unfoldable pub persist_thread :
    (Meta → String)
    → Option (String × String)
    → (String → BlobRead)
    → String
    → String
    → Option (String → BlobRead)
unfolding put_bytes meta_key rollout_key
persist_thread dumps none blobs session_id thread_id = none
persist_thread dumps (some (rel, body)) blobs session_id thread_id = some (
    put_bytes (put_bytes blobs (meta_key session_id) (dumps (meta thread_id rel)))
      (rollout_key session_id) body)
