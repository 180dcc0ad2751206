-- ===== src/ProjectSetup/Lifecycle.antt =====
-- The two views of which lifecycle rules a bucket lacks.
use harness_run.Base.{
  ℕ, String, ◌≡◌, refl, true, false, some, [], ◌∷◌, leb, arith, eq_refl, ◌<◌, ◌<>◌,
}
use harness_run.Handoff.{Rule, base_of, config_lifecycle_days, handoff_lifecycle_rules, missing}
use harness_run.ProjectSetup.{lifecycle_missing}

-- A rule that deletes all of the run records, at an age.
abbrev pub slow_rule : String → ℕ → Rule
slow_rule prefix age = record {
  deletes = true;
  plain = true;
  age = some age;
  prefixes =
      (base_of prefix <> "invocation-secrets/")
      ∷ (base_of prefix <> "session-config/")
      ∷ (base_of prefix <> "turn-config/")
      ∷ [];
}

-- A bucket whose one rule deletes the run records after more days than the configs' age: the setup
-- finds no rule missing, where the deployment would add both.
pub lifecycle_missing-missing :
    (prefix : String) (age : ℕ)
    → config_lifecycle_days < age
    → (lifecycle_missing (slow_rule prefix age ∷ []) (handoff_lifecycle_rules prefix) ≡ [])
      × (missing (slow_rule prefix age ∷ []) (handoff_lifecycle_rules prefix)
          ≡ handoff_lifecycle_rules prefix)
unfolding lifecycle_missing missing handoff_lifecycle_rules
lifecycle_missing-missing prefix age h =
    let secrets = eq_refl (base_of prefix <> "invocation-secrets/") in
    let session = eq_refl (base_of prefix <> "session-config/") in
    let turn = eq_refl (base_of prefix <> "turn-config/") in
    let young : leb age 1 ≡ false = ground arith in
    let old : leb age 30 ≡ false = ground arith in
    (ground (arith, secrets, session, turn), rw (young, old) refl)
