-- ===== src/Tests/ThreadRuns.antt =====
-- Runs of the persisted threads of harness_run/harness/codex.py.
use harness_run.Base.{
  String, ◌==◌, ◌≡◌, refl, true, false, Option, none, some, List, [], ◌∷◌, ◌++◌, if◌then◌else◌,
}
use harness_run.Codex.Threads.{
  Files, Meta, meta, BlobRead, bytes, no_object, resumed, unwritten, fresh, restore_thread,
  persist_thread, rollout_destination, rollout_key, is_safe, parts,
}
use harness_run.Codex.Threads.Confined.{IsConfined, restore_thread-IsConfined}
use harness_run.Codex.Threads.Kept.{restore_thread-persist_thread}

abbrev codex_home : List String
codex_home = "/" ∷ "work" ∷ ".codex" ∷ []

abbrev files : Files
files = record { home = some codex_home; resolve = λ p. some (codex_home ++ p); takes = λ p. true }

abbrev rollout : String
rollout = "sessions/2026/rollout-1-t1.jsonl"

abbrev dumps : Meta → String
dumps m = elim m.relpath [ none ↦ "{}" | some rel ↦ rel ]

abbrev loads : String → Option Meta
loads s = if s == "{}" then none else some (meta "t1" s)

abbrev no_objects : String → BlobRead
no_objects k = no_object

abbrev dest : List String
dest = codex_home ++ ("sessions" ∷ "2026" ∷ "rollout-1-t1.jsonl" ∷ [])

rollout_is_taken : rollout_destination files (some rollout) ≡ some dest
unfolding rollout_destination
rollout_is_taken = refl

climbing_is_unsafe : is_safe "sessions/../../x.jsonl" ≡ false
unfolding is_safe
climbing_is_unsafe = refl

absolute_is_unsafe : is_safe "/sessions/x.jsonl" ≡ false
unfolding is_safe
absolute_is_unsafe = refl

hidden_is_unsafe : is_safe "sessions/.jsonl" ≡ false
unfolding is_safe
hidden_is_unsafe = refl

dots_and_doubled_slashes : parts "./sessions//a.jsonl" ≡ "sessions" ∷ "a.jsonl" ∷ []
unfolding parts
dots_and_doubled_slashes = refl

restore_thread-persist_thread_example :
    (after : String → BlobRead) × (persist_thread dumps
        (some (rollout, "line"))
        no_objects
        "s1"
        "t1"
      ≡ some after)
    × (restore_thread loads files after "s1"
        ≡ record { result = resumed "t1"; written = some (dest, "line") })
restore_thread-persist_thread_example =
    restore_thread-persist_thread dumps loads files no_objects "s1" "t1" rollout "line" dest refl
      refl rollout_is_taken refl

-- Objects that the run's agent has written: the metadata is a path that climbs out.
abbrev hostile : String → BlobRead
hostile k = bytes "sessions/../../x.jsonl"

hostile_starts_fresh : restore_thread loads files hostile "s1" ≡ unwritten fresh
unfolding restore_thread
hostile_starts_fresh = refl

restore_thread-IsConfined_example :
    IsConfined files (hostile (rollout_key "s1")) (restore_thread loads files hostile "s1")
restore_thread-IsConfined_example = restore_thread-IsConfined loads files hostile "s1"
