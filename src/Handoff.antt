-- ===== src/Handoff.antt =====
-- harness_run/runtime/sandbox/handoff.py: the records of a run in the bucket, and the lifecycle
-- rules that delete them.
pub mod Coverage
use harness_run.Base.{
  ℕ, String, ◌==◌, ◌<>◌, Bool, true, false, not, Option, none, some, List, [], ◌∷◌, ◌++◌,
  if◌then◌else◌, leb, any, all, keep,
}
use harness_run.Base.Paths.{partition_slash, lstrip_slash, rstrip_slash}

-- A lifecycle rule. `deletes` says that its action is `Delete`, `plain` that its condition has
-- no key but `age` and `matchesPrefix`; a missing age, or one that is no number from 0 on, is
-- `none`.
pub record Rule : Type 0 where
  pub deletes : Bool
  pub plain : Bool
  pub age : Option ℕ
  pub prefixes : List String

abbrev pub lifecycle_days : ℕ
lifecycle_days = 1

abbrev pub config_lifecycle_days : ℕ
config_lifecycle_days = 30

-- The prefix of the output bucket's own objects, with its slash.
abbrev pub base_of : String → String
base_of prefix = if prefix == "" then "" else prefix <> "/"

-- `handoff_lifecycle_rules`, under a prefix.
unfoldable pub handoff_lifecycle_rules : String → List Rule
handoff_lifecycle_rules prefix =
    record {
      deletes = true;
      plain = true;
      age = some lifecycle_days;
      prefixes = (base_of prefix <> "invocation-secrets/") ∷ [];
    }
    ∷ record {
      deletes = true;
      plain = true;
      age = some config_lifecycle_days;
      prefixes = (base_of prefix <> "session-config/") ∷ (base_of prefix <> "turn-config/") ∷ [];
    }
    ∷ []

-- Whether the rule deletes what has this prefix at this age, and nothing but by age.
abbrev pub covers_by : String → ℕ → Rule → Bool
covers_by p age r = elim r.age [
  | none ↦ false
  | some a ↦
      if r.deletes
      then if r.plain then if leb a age then any (λ q. q == p) r.prefixes else false else false
      else false
]

-- `covered.get(p, inf) <= age`: the least age among the rules for the prefix is at most this one,
-- so some rule's is.
abbrev pub covered : List Rule → String → ℕ → Bool
covered rules p age = any (λ r. covers_by p age r) rules

abbrev pub is_met : List Rule → Rule → Bool
is_met rules wanted = elim wanted.age [
  | none ↦ false
  | some age ↦ all (λ p. covered rules p age) wanted.prefixes
]

unfoldable pub missing : List Rule → List Rule → List Rule
missing rules wanted = keep (λ r. not (is_met rules r)) wanted

-- `ensure_handoff_lifecycle` on a bucket's rules: what it answers, and the rules after it.
-- `patches` says that the bucket takes the change.
unfoldable pub ensure_handoff_lifecycle : Bool → String → List Rule → Bool × List Rule
unfolding missing handoff_lifecycle_rules
ensure_handoff_lifecycle patches prefix rules =
    elim (missing rules (handoff_lifecycle_rules prefix)) [
      | [] ↦ (true, rules)
      | r ∷ rs ↦ if patches then (true, rules ++ (r ∷ rs)) else (false, rules)
    ]
