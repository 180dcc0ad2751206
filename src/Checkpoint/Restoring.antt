-- ===== src/Checkpoint/Restoring.antt =====
-- What a resumed turn is told of its workspace.
use harness_run.Base.{String, ◌≡◌, refl, ◌↔◌, true, false, Option, none, some, List, [], ◌∷◌}
use harness_run.Checkpoint.{
  Workdir, Extraction, extracted, failed, is_pristine, restore, try_restore, WorkspaceReady,
  workspace_ready_event,
}

-- What the event of a resumed turn says of the snapshot and of the files.
abbrev pub Tells : Option Extraction → Workdir → WorkspaceReady → Workdir → Type 0
Tells none w e w' = (e.restored ≡ false) × (e.restore_error ≡ none) × (w' ≡ w)
Tells (some (extracted files skipped)) w e w' =
    (e.restored ≡ true) × (e.restore_error ≡ none) × (e.skipped ≡ skipped) × (w' ≡ some files)
Tells (some (failed partial error)) w e w' =
    (e.restored ≡ false) × (e.restore_error ≡ some error) × ((is_pristine w ≡ true) ↔ (w' ≡ none))

failed-workdir :
    (w : Workdir) (partial : List String) (error : String)
    → (is_pristine w ≡ true) ↔ ((restore (some (failed partial error)) w).1 ≡ none)
unfolding restore
failed-workdir none partial error = (λ h. refl, λ h. refl)
failed-workdir (some []) partial error = (λ h. refl, λ h. refl)
failed-workdir (some (f ∷ fs)) partial error = (λ h. cc, λ h. cc)

-- The `workspace_ready` event says that the files are back exactly where a snapshot was
-- extracted; where the extraction failed, it has the error, and no half-restored directory is
-- left unless it had files before; without a snapshot, nothing is touched and there is no error.
workspace_ready_event-Tells :
    (x : Option Extraction) (w : Workdir) (skills repos : List String)
    → let (r, w') = try_restore x w in Tells x w (workspace_ready_event r.0 r.1 skills repos) w'
unfolding workspace_ready_event try_restore
workspace_ready_event-Tells none w skills repos = (refl, refl, refl)
workspace_ready_event-Tells (some (extracted files skipped)) w skills repos =
    (refl, refl, refl, refl)
workspace_ready_event-Tells (some (failed partial error)) w skills repos =
    (refl, refl, failed-workdir w partial error)
