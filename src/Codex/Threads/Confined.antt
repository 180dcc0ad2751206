-- ===== src/Codex/Threads/Confined.antt =====
-- What a restored thread writes, and where.
use harness_run.Base.{
  String, ◌==◌, ◌≡◌, refl, sym, Bool, true, false, Option, none, some, List, [], ◌∷◌, ◌++◌,
  Bool-cases, Option-cases, inl, inr, ◌⊎◌,
}
use harness_run.Codex.Threads.{
  Files, Meta, BlobRead, bytes, no_object, failed, Restored, fresh, resumed, raised, Restoration,
  restore_thread, rollout_destination, is_relative_to, rollout_key, meta_key, is_safe, resolved,
  confined, write_rollout, at_destination, with_meta, with_raw, parts,
}

-- A path at or below `sessions` in the resolved home.
abbrev pub IsInside : Files → List String → Type 0
IsInside files dest =
    (home : List String) × (files.home ≡ some home)
    × (is_relative_to dest (home ++ ("sessions" ∷ [])) ≡ true)

abbrev pub is_resumed : Restored → Bool
is_resumed fresh = false
is_resumed (resumed t) = true
is_resumed (raised m) = false

-- Either nothing is written and no conversation goes on, or the one file is inside, holds
-- `rollout`, and the conversation is a named one.
abbrev pub IsConfined : Files → BlobRead → Restoration → Type 0
IsConfined files rollout r =
    ((r.written ≡ none) × (is_resumed r.result ≡ false))
    ⊎ ((dest : List String) × (body : String) × (t : String) × (r.written ≡ some (dest, body))
        × (IsInside files dest × ((rollout ≡ bytes body) × (r.result ≡ resumed t))))

write-IsConfined :
    (files : Files) (t : String) (dest : List String) (rollout : BlobRead)
    → IsInside files dest
    → IsConfined files rollout (write_rollout files t dest rollout)
unfolding write_rollout
write-IsConfined files t dest (bytes body) h = elim (Bool-cases (files.takes dest)) [
  | inl e ↦ rw e (inr (dest, body, t, refl, (h, (refl, refl))))
  | inr e ↦ rw e (inl (refl, refl))
]
write-IsConfined files t dest no_object h = inl (refl, refl)
write-IsConfined files t dest failed h = inl (refl, refl)

none-some : {dest : List String} → ◌≡◌ {A = Option (List String)} none (some dest) → ⊥
none-some q = cc

some_injective : {d e : List String} → some d ≡ some e → d ≡ e
some_injective q = cc

resolved-IsInside :
    (files : Files) (path dest : List String)
    → resolved files path ≡ some dest
    → IsInside files dest
unfolding resolved confined
resolved-IsInside files path dest h = elim (Option-cases files.home) [
  | inl e ↦ absurd (none-some (rw e at h))
  | inr (home, e) ↦ elim (Option-cases (files.resolve path)) [
    | inl q ↦ absurd (none-some (rw (e, q) at h))
    | inr (at, q) ↦ elim (Bool-cases (is_relative_to at (home ++ ("sessions" ∷ [])))) [
      | inl i ↦ (home, e, rw (sym (some_injective (rw (e, q, i) at h))) i)
      | inr i ↦ absurd (none-some (rw (e, q, i) at h))
    ]
  ]
]

destination-IsInside :
    (files : Files) (relpath : Option String) (dest : List String)
    → rollout_destination files relpath ≡ some dest
    → IsInside files dest
unfolding rollout_destination
destination-IsInside files none dest h = absurd (none-some h)
destination-IsInside files (some relpath) dest h = elim (Bool-cases (is_safe relpath)) [
  | inl e ↦ resolved-IsInside files (parts relpath) dest (rw e at h)
  | inr e ↦ absurd (none-some (rw e at h))
]

at-IsConfined :
    (files : Files) (t : String) (rollout : BlobRead) (relpath : Option String)
    → IsConfined files rollout (at_destination files t rollout (rollout_destination files relpath))
unfolding at_destination
at-IsConfined files t rollout relpath = elim (Option-cases (rollout_destination files relpath)) [
  | inl e ↦ rw e (inl (refl, refl))
  | inr (dest, e) ↦
      rw e (write-IsConfined files t dest rollout (destination-IsInside files relpath dest e))
]

meta-IsConfined :
    (files : Files) (rollout : BlobRead) (m : Option Meta)
    → IsConfined files rollout (with_meta files rollout m)
unfolding with_meta
meta-IsConfined files rollout none = inl (refl, refl)
meta-IsConfined files rollout (some m) = elim (Option-cases m.thread_id) [
  | inl e ↦ rw e (inl (refl, refl))
  | inr (t, e) ↦ elim (Bool-cases (t == "")) [
    | inl q ↦ rw (e, q) (inl (refl, refl))
    | inr q ↦ rw (e, q) (at-IsConfined files t rollout m.relpath)
  ]
]

raw-IsConfined :
    (loads : String → Option Meta) (files : Files) (rollout raw : BlobRead)
    → IsConfined files rollout (with_raw loads files rollout raw)
unfolding with_raw
raw-IsConfined loads files rollout (bytes raw) = meta-IsConfined files rollout (loads raw)
raw-IsConfined loads files rollout no_object = inl (refl, refl)
raw-IsConfined loads files rollout failed = inl (refl, refl)

-- Whatever the bucket's objects hold, restoring a thread writes one file at most. If it writes one,
-- the file's resolved path is at or below `sessions` in the resolved home, it holds the bytes of
-- the session's rollout, and a thread is resumed. If it writes none, no thread is resumed.
pub restore_thread-IsConfined :
    (loads : String → Option Meta) (files : Files) (blobs : String → BlobRead) (sid : String)
    → IsConfined files (blobs (rollout_key sid)) (restore_thread loads files blobs sid)
unfolding restore_thread
restore_thread-IsConfined loads files blobs sid =
    raw-IsConfined loads files (blobs (rollout_key sid)) (blobs (meta_key sid))
