-- ===== src/Dispatch/Sources.antt =====
-- harness_run/runtime/sandbox/backend.py, `_claim_sandbox`: the sandbox that an attempt works
-- with, from the pool or a fresh one.
use harness_run.Base.{
  ap, ◌≡◌, ◌+◌, head?, keep, ℕ, String, Bool, true, false, Option, none, some, List, [], map,
  if◌then◌else◌,
}
use harness_run.Roster.{Row, claim, read, expired_at}
use harness_run.Roster.Reading.{IsValid}
use harness_run.Roster.Claiming.{claim_takes, live_at}
use harness_run.Roster.Store.{InMemoryRosterStore}

abbrev pub fresh : Option String → Option (String × Bool)
fresh none = none
fresh (some s) = some (s, false)

abbrev pub pooled_or : Option Row → Option (String × Bool) → Option (String × Bool)
pooled_or none other = other
pooled_or (some row) other = some (row.entry.sandbox, true)

-- `CLAIM_MARGIN_S` is the claim's margin, `created` the sandbox that is made if the pool has none
-- (`none` if that fails). It gives the sandbox and whether it is from the pool, the stale
-- sandboxes that are deleted in the background, and the roster's store.
unfoldable pub claim_sandbox :
    Bool
    → InMemoryRosterStore
    → String
    → ℕ
    → ℕ
    → Option String
    → Option (String × Bool) × List String × InMemoryRosterStore
unfolding claim
claim_sandbox pooled store prefix now margin_s created =
    let c = claim store prefix now margin_s in
    if pooled
    then (pooled_or c.claimed (fresh created), map (λ row. row.entry.sandbox) c.pruned, c.store)
    else (fresh created, [], store)

-- In a store whose names are distinct, an attempt on a pooled engine works with the sandbox of
-- the first row that outlives the margin, marked as from the pool, and with a fresh one only if
-- there is no such row; it deletes exactly the sandboxes of the rows that do not.
claim_sandbox_lem :
    (s : InMemoryRosterStore) (prefix : String) (now margin_s : ℕ) (created : Option String)
    → IsValid s
    → let (got, stale, after) = claim_sandbox true s prefix now margin_s created in
      let rows = read s prefix in
      (got ≡ pooled_or (head? (keep (live_at (now + margin_s)) rows)) (fresh created))
      × (stale ≡ map (λ row. row.entry.sandbox) (keep (expired_at (now + margin_s)) rows))
unfolding claim_sandbox
claim_sandbox_lem s prefix now margin_s created v =
    let c = claim_takes s prefix now margin_s v in
    (ap (λ o. pooled_or o (fresh created)) c.0, ap (map (λ row. row.entry.sandbox)) c.1)
