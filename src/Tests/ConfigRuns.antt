-- ===== src/Tests/ConfigRuns.antt =====
-- A session's configuration, transcripts, workspace and run records at concrete values.
use harness_run.Base.{
  String, ◌==◌, ◌≡◌, refl, true, false, Option, none, some, List, [], ◌∷◌, ◌++◌, In, Distinct,
  if◌then◌else◌,
}
use harness_run.Checkpoint.{load}
use harness_run.Checkpoint.Transcripts.{load-Distinct, uuids}
use harness_run.Config.{
  Setting, inherit, set, Knob, model, max_turns, World, AgentSpec, SessionConfig, TurnConfig,
  apply_session_config, apply_turn_config, Env,
}
use harness_run.Config.Layers.{turn_layers, FromTopmost, lookup, last_set}
use harness_run.Handoff.{Rule, handoff_lifecycle_rules, ensure_handoff_lifecycle}
use harness_run.Handoff.Coverage.{IsDeletedWithin, ensure_handoff_lifecycle-again}

-- Entries are texts: "-" has no uuid, any other is its own.
abbrev uuid : String → Option String
uuid s = if s == "-" then none else some s

load-Distinct_example :
    Distinct (uuids uuid ("a" ∷ "b" ∷ "c" ∷ []))
    × ((u : String)
        → In u ("a" ∷ "b" ∷ "a" ∷ "b" ∷ "c" ∷ [])
        → In u (uuids uuid ("a" ∷ "b" ∷ "c" ∷ [])))
unfolding load
load-Distinct_example =
    load-Distinct uuid ("a" ∷ "b" ∷ []) (("a" ∷ "b" ∷ "c" ∷ []) ∷ []) ("a" ∷ "b" ∷ "c" ∷ []) refl

abbrev spec : AgentSpec String String
spec = record {
  knobs = λ k. "deployed";
  world = λ f. "deployed";
  env = ("LANG", "C") ∷ ("TZ", "UTC") ∷ [];
  deployed = "image";
}

abbrev session_knobs : Knob → Setting String
session_knobs model = set "opus"
session_knobs k = inherit

abbrev turn_knobs : Knob → Setting String
turn_knobs max_turns = set "3"
turn_knobs k = inherit

abbrev extra : Env
extra = ("TZ", "CET") ∷ []

abbrev session : SessionConfig String
session = record { world = λ f. inherit; extra_env = set (some extra); knobs = session_knobs }

abbrev turn : TurnConfig String
turn = record { knobs = turn_knobs }

turn_layers_example :
    let effective = apply_turn_config (apply_session_config spec (some session)) (some turn) in
    ((k : Knob) → FromTopmost (turn_knobs k ∷ session_knobs k ∷ []) "deployed" (effective.knobs k))
    × ((f : World) → FromTopmost (inherit ∷ []) "deployed" (effective.world f))
    × ((v : String) → lookup v effective.env ≡ last_set v extra (lookup v spec.env))
    × (effective.deployed ≡ "image")
turn_layers_example = turn_layers spec session turn extra refl

abbrev old_rule : Rule
old_rule = record {
  deletes = true;
  plain = true;
  age = some 7;
  prefixes = "invocation-secrets/" ∷ [];
}

ensure_handoff_lifecycle-again_example :
    let (ok, after) = ensure_handoff_lifecycle true "" (old_rule ∷ []) in
    (ok ≡ true)
    × ((more : List Rule) × (after ≡ (old_rule ∷ []) ++ more)
        × ((r : Rule) → In r more → In r (handoff_lifecycle_rules "")))
    × IsDeletedWithin 1 "invocation-secrets/" after
    × IsDeletedWithin 30 "session-config/" after
    × IsDeletedWithin 30 "turn-config/" after
    × (ensure_handoff_lifecycle false "" after ≡ (true, after))
ensure_handoff_lifecycle-again_example = ensure_handoff_lifecycle-again false "" (old_rule ∷ [])
