-- ===== src/ScopedGcs.antt =====
-- harness_run/runtime/sandbox/scoped_gcs.py: the worker's credentials, which refresh a run's
-- token from the bucket. Times are seconds.
pub mod Refreshing
use harness_run.Base.{
  ℕ, ◌+◌, suc, String, Bool, true, false, not, ◌&&◌, Option, none, some, List, [], ◌∷◌,
  if◌then◌else◌, append_one, ltb, leb, eqb,
}

-- `REFRESH_HORIZON`
abbrev pub refresh_horizon : ℕ
refresh_horizon = 600

-- `DEAD_TOKEN_AFTER`
abbrev pub dead_token_after : ℕ
dead_token_after = 3

-- What is logged.
pub data Notice : Type 0 where
  warned escalated : Notice

-- What reading the token's object gives: its token, unless it is empty, and its expiry, where
-- `_parse_expiry` reads one.
pub data Fetched : Type 0 where
  read : Option String → Option ℕ → Fetched
  raised : Fetched

-- `state`, and what was logged.
pub record Refresher : Type 0 where
  pub token : String
  pub failures : ℕ
  pub escalated : Bool
  pub log : List Notice

-- A token and the expiry that the library is shown.
pub record Shown : Type 0 where
  pub token : String
  pub expiry : ℕ

abbrev pub retry_soon : ℕ → ℕ
retry_soon now = now + 300

unfoldable pub within_horizon : ℕ → Option ℕ → ℕ
within_horizon now none = now + refresh_horizon
within_horizon now (some when) =
    if ltb (now + refresh_horizon) when then now + refresh_horizon else when

abbrev pub or_soon : ℕ → Option ℕ → ℕ
or_soon now none = retry_soon now
or_soon now (some when) = when

-- The `except`.
unfoldable pub note_failure : Refresher → Refresher
note_failure s =
    let n = suc s.failures in
    if eqb n 1
    then record s { failures = n; log = append_one s.log Notice.warned }
    else if leb dead_token_after n && not s.escalated
    then record s { failures = n; escalated = true; log = append_one s.log Notice.escalated }
    else record s { failures = n }

abbrev pub kept : ℕ → Refresher → Shown
kept now s = record { token = s.token; expiry = retry_soon now }

-- `refresh_handler`, of a credential with a bucket to read from or without one.
unfoldable pub refresh_handler : Bool → ℕ → Fetched → Refresher → Shown × Refresher
unfolding within_horizon note_failure
refresh_handler false now f s = (kept now s, s)
refresh_handler true now (read (some fresh) expiry) s = (
  record { token = fresh; expiry = within_horizon now (some (or_soon now expiry)) },
  record s { token = fresh; failures = 0; escalated = false },
)
refresh_handler true now (read none expiry) s = (kept now s, s)
refresh_handler true now raised s = (kept now s, note_failure s)

-- `worker_credentials`: what the credential first shows, and its state.
unfoldable pub worker_credentials : ℕ → String → Option ℕ → Shown × Refresher
unfolding within_horizon
worker_credentials now token expiry = (
  record { token = token; expiry = within_horizon now (some (or_soon now expiry)) },
  record { token = token; failures = 0; escalated = false; log = [] },
)

-- The refreshes of a credential, each at its time: what it is given, and its state.
unfoldable pub refreshes : List (ℕ × Fetched) → Refresher → List Shown × Refresher
unfolding refresh_handler
refreshes [] s = ([], s)
refreshes ((now, f) ∷ fs) s =
    let (shown, s1) = refresh_handler true now f s in
    let (rest, s2) = refreshes fs s1 in (shown ∷ rest, s2)
