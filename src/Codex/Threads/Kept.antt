-- ===== src/Codex/Threads/Kept.antt =====
-- A thread that was persisted is restored.
use text.Mathlib.TextLemmas.{append_cancel_left}
use harness_run.Base.{
  String, ◌==◌, ◌≡◌, refl, true, false, Option, some, List, eq_refl, eq_iff, Bool-cases, inl, inr,
}
use harness_run.Codex.Threads.{
  Files, Meta, meta, BlobRead, bytes, resumed, restore_thread, rollout_destination, rollout_key,
  meta_key, write_rollout, at_destination, with_meta, with_raw, persist_thread, put_bytes,
}

false-true : false ≡ true → ⊥
false-true q = cc

keys_differ : (sid : String) → (meta_key sid == rollout_key sid) ≡ false
unfolding meta_key rollout_key
keys_differ sid = elim (Bool-cases (meta_key sid == rollout_key sid)) [
  | inl e ↦
      let tails : "/meta.json" ≡ "/rollout.jsonl" =
        append_cancel_left sid _ _ (
          append_cancel_left "codex-threads/" _ _
            ((eq_iff (meta_key sid) (rollout_key sid)).0 e)) in
      absurd (false-true ((eq_iff "/meta.json" "/rollout.jsonl").1 tails))
  | inr e ↦ e
]

get_meta :
    (blobs : String → BlobRead) (sid raw body : String)
    → put_bytes (put_bytes blobs (meta_key sid) raw) (rollout_key sid) body (meta_key sid)
      ≡ bytes raw
unfolding put_bytes
get_meta blobs sid raw body = rw (keys_differ sid, eq_refl) refl

get_rollout :
    (blobs : String → BlobRead) (sid body : String)
    → put_bytes blobs (rollout_key sid) body (rollout_key sid) ≡ bytes body
unfolding put_bytes
get_rollout blobs sid body = rw eq_refl refl

-- A thread with an id that is not empty, whose rollout has a path that `_rollout_destination` takes
-- and that can be written, is persisted. Where the store takes both objects and decoding gives back
-- the metadata that was encoded, restoring the session then resumes that thread, and writes the
-- bytes of its rollout at the resolved path.
pub restore_thread-persist_thread :
    (dumps : Meta → String) (loads : String → Option Meta)
    → (files : Files) (blobs : String → BlobRead) (sid t rel body : String) (dest : List String)
    → loads (dumps (meta t rel)) ≡ some (meta t rel)
    → (t == "") ≡ false
    → rollout_destination files (some rel) ≡ some dest
    → files.takes dest ≡ true
    → (after : String → BlobRead) × (persist_thread dumps (some (rel, body)) blobs sid t
        ≡ some after)
      × (restore_thread loads files after sid
          ≡ record { result = resumed t; written = some (dest, body) })
unfolding persist_thread restore_thread with_raw with_meta at_destination write_rollout
restore_thread-persist_thread dumps loads files blobs sid t rel body dest inverse ht hd hw =
    (_, refl, rw (get_rollout, get_meta, inverse, ht, hd, hw) refl)
