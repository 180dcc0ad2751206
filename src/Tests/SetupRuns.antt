-- ===== src/Tests/SetupRuns.antt =====
-- Credentials, policies and lifecycle rules at concrete values.
use harness_run.Base.{ℕ, ◌≡◌, refl, true, false, none, some, List, [], ◌∷◌, arith}
use harness_run.ScopedGcs.{Fetched, read, raised, Notice, refreshes, worker_credentials}
use harness_run.ScopedGcs.Refreshing.{
  last_token, notices, Tells, worker_credentials-Tells, AreSoon, credentials-AreSoon,
}
use harness_run.Handoff.{handoff_lifecycle_rules, missing}
use harness_run.ProjectSetup.{Binding, Write, written, conflict, set, grant, lifecycle_missing}
use harness_run.ProjectSetup.Granting.{Ends, grant-Ends}
use harness_run.ProjectSetup.Lifecycle.{slow_rule, lifecycle_missing-missing}

-- Four failures, a new token that claims to live long, and another failure.
abbrev attempts : List (ℕ × Fetched)
attempts =
    (100, raised)
    ∷ (400, raised)
    ∷ (700, raised)
    ∷ (1000, raised)
    ∷ (1300, read (some "fresh") (some 90000))
    ∷ (1900, raised)
    ∷ []

notices_example : notices 0 attempts ≡ Notice.warned ∷ Notice.escalated ∷ Notice.warned ∷ []
unfolding notices
notices_example = refl

worker_credentials-Tells_example :
    Tells
      (notices 0 attempts)
      (last_token "first" attempts)
      (refreshes attempts (worker_credentials 0 "first" none).1).1
worker_credentials-Tells_example = worker_credentials-Tells 0 "first" none attempts

credentials-AreSoon_example : AreSoon ((0, read (some "first") none) ∷ attempts) (
    (worker_credentials 0 "first" none).0
    ∷ (refreshes attempts (worker_credentials 0 "first" none).1).0)
credentials-AreSoon_example = credentials-AreSoon 0 "first" none attempts

abbrev policy : List Binding
policy =
    record { role = "reader"; conditional = true; members = "a" ∷ [] }
    ∷ record { role = "reader"; conditional = false; members = "b" ∷ [] }
    ∷ []

-- The first write meets a conflict, and the policy that is read then is another.
abbrev rounds : List (List Binding × Write)
rounds = ([], conflict) ∷ (policy, written) ∷ []

grant-Ends_example : Ends (("reader", "a") ∷ []) rounds (grant (("reader", "a") ∷ []) rounds)
grant-Ends_example = grant-Ends (("reader", "a") ∷ []) rounds

granted :
    grant (("reader", "a") ∷ []) rounds
    ≡ set (
        record { role = "reader"; conditional = true; members = "a" ∷ [] }
        ∷ record { role = "reader"; conditional = false; members = "b" ∷ "a" ∷ [] }
        ∷ [])
unfolding grant
granted = refl

lifecycle_missing-missing_example :
    (lifecycle_missing (slow_rule "" 365 ∷ []) (handoff_lifecycle_rules "") ≡ [])
    × (missing (slow_rule "" 365 ∷ []) (handoff_lifecycle_rules "") ≡ handoff_lifecycle_rules "")
lifecycle_missing-missing_example = lifecycle_missing-missing "" 365 (omega arith)
