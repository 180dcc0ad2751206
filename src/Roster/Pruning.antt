-- ===== src/Roster/Pruning.antt =====
-- What `prune_expired`, `clear` and `add` do to the roster.
use Prim.Native.String.{String}
use mathlib.Core.List.{append_assoc, append-nil}
use harness_run.Base.{
  ℕ, ◌≡◌, refl, sym, ◌∙◌, Bool, true, none, List, [], ◌∷◌, ◌++◌, arith, ◌==◌, if◌then◌else◌, keep,
  All, Bool-cases, inl, inr,
}
use harness_run.Base.Sorting.{Pairwise}
use harness_run.Roster.{Row, delete_rows, prune_expired, clear, read, expired_at}
use harness_run.Roster.Store.{InMemoryRosterStore, lookup}
use harness_run.Roster.Reading.{IsValid, Held-read, Apart-read}
use harness_run.Roster.Rows.{lookup-without, held, less, delete_if_lem, Apart, Held, All_Held-less}
use harness_run.Roster.Claiming.{named, any-append}

delete_rows_lem :
    (test : Row → Bool) (rows : List Row) (s : InMemoryRosterStore) (gone : List Row)
    → All (Held s) rows
    → Pairwise Apart rows
    → (delete_rows test rows s gone).1 ≡ gone ++ keep test rows
unfolding delete_rows
delete_rows_lem test [] s gone h p = sym (append-nil gone)
delete_rows_lem test (row ∷ rows) s gone h p = elim (Bool-cases (test row)) [
  | inl t ↦
      let ih =
        delete_rows_lem test rows (less s row.name) (gone ++ row ∷ [])
          (All_Held-less s row rows p.0 h.1) p.1 in
      ground (arith, delete_if_lem s row, h.0, ih, append_assoc gone (row ∷ []) (keep test rows))
  | inr t ↦ ground (arith, delete_rows_lem test rows s gone h.1 p.1)
]

delete_rows_leaves :
    (test : Row → Bool) (rows : List Row) (s s' : InMemoryRosterStore) (gone : List Row)
    (j : String)
    → lookup j s'.objects ≡ (if named j gone then none else lookup j s.objects)
    → let (t, taken) = delete_rows test rows s' gone in
      lookup j t.objects ≡ (if named j taken then none else lookup j s.objects)
unfolding delete_rows
delete_rows_leaves test [] s s' gone j h = h
delete_rows_leaves test (row ∷ rows) s s' gone j h = elim (Bool-cases (test row)) [
  | inr t ↦ ground (arith, delete_rows_leaves test rows s s' gone j h)
  | inl t ↦ elim (Bool-cases (held s' row)) [
    | inr lost ↦ ground (arith, delete_if_lem s' row, delete_rows_leaves test rows s s' gone j h)
    | inl has ↦ ground (
      arith,
      delete_if_lem s' row,
      delete_rows_leaves test rows s (less s' row.name) (gone ++ row ∷ []) j,
      lookup-without row.name j s'.objects,
      any-append (λ r. r.name == j) gone (row ∷ []),
    )
  ]
]

module _ (s : InMemoryRosterStore) (prefix : String) where
  -- In a store whose names are distinct, `prune_expired` returns exactly the rows of `_read` that
  -- have expired by `now`, oldest first, and takes these names and no other from the store.
  prune_expired_takes :
      (now : ℕ)
      → IsValid s
      → let (t, pruned) = prune_expired s prefix now in
        (pruned ≡ keep (expired_at now) (read s prefix))
        × ((j : String)
            → lookup j t.objects ≡ (if named j pruned then none else lookup j s.objects))
  unfolding prune_expired
  prune_expired_takes now v = (
    delete_rows_lem (expired_at now) (read s prefix) s [] (Held-read s prefix v)
        (Apart-read s prefix v),
    λ j. delete_rows_leaves (expired_at now) (read s prefix) s s [] j refl,
  )

  keep_all : (rows : List Row) → keep (λ _. true) rows ≡ rows
  keep_all [] = refl
  keep_all (r ∷ rows) = rw (keep_all rows)

  -- In a store whose names are distinct, `clear` returns every row that `_read` lists, and takes
  -- these names and no other from the store.
  clear_takes :
      IsValid s
      → let (t, cleared) = clear s prefix in
        (cleared ≡ read s prefix)
        × ((j : String)
            → lookup j t.objects ≡ (if named j cleared then none else lookup j s.objects))
  unfolding clear
  clear_takes v = (
    delete_rows_lem (λ _. true) (read s prefix) s [] (Held-read s prefix v) (Apart-read s prefix v)
        ∙ keep_all (read s prefix),
    λ j. delete_rows_leaves (λ _. true) (read s prefix) s s [] j refl,
  )
