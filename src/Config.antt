-- ===== src/Config.antt =====
-- harness_run/config.py: the sparse overlays of a session and of a turn over the deployed spec.
pub mod Layers
use harness_run.Base.{
  String, ◌==◌, Bool, true, false, Option, none, some, List, [], ◌∷◌, if◌then◌else◌,
}

-- A field that is set, also to `None`, or `INHERIT`.
pub data Setting (V : Type 0) : Type 0 where
  inherit : Setting V
  set : V → Setting V

-- `_KNOB_FIELDS`
pub data Knob : Type 0 where
  model reasoning_effort max_turns max_budget_usd max_buffer_size : Knob
  background_task_timeout permission_mode allowed_tools disallowed_tools : Knob
  output_schema openrouter_provider openrouter_routing codex_config : Knob

-- `_WORLD_FIELDS`
pub data World : Type 0 where
  repos skills mcp_servers system_prompt harness checkpoint interactive : World

abbrev pub Env : Type 0
Env = List (String × String)

-- A spec, by the fields that a config can set, its `env`, and the deploy-only fields `D`.
pub record AgentSpec (V D : Type 0) : Type 0 where
  pub knobs : Knob → V
  pub world : World → V
  pub env : Env
  pub deployed : D

pub record SessionConfig (V : Type 0) : Type 0 where
  pub world : World → Setting V
  pub extra_env : Setting (Option Env)
  pub knobs : Knob → Setting V

pub record TurnConfig (V : Type 0) : Type 0 where
  pub knobs : Knob → Setting V

abbrev pub over : {V : Type 0} → Setting V → V → V
over inherit v = v
over (set w) v = w

-- A dict with one key set: in place, or at the end.
abbrev pub put : String → String → Env → Env
put k v [] = (k, v) ∷ []
put k v ((l, w) ∷ env) = let rest = put k v env in if l == k then (l, v) ∷ env else (l, w) ∷ rest

-- `{**env, **extra}`
abbrev pub merge : Env → Env → Env
merge env [] = env
merge env ((k, v) ∷ extra) = merge (put k v env) extra

abbrev pub with_extra : Setting (Option Env) → Env → Env
with_extra inherit env = env
with_extra (set none) env = env
with_extra (set (some extra)) env = merge env extra

unfoldable pub apply_session_config :
    {V D : Type 0} → AgentSpec V D → Option (SessionConfig V) → AgentSpec V D
apply_session_config spec none = spec
apply_session_config spec (some config) = record spec {
  knobs = λ k. over (config.knobs k) (spec.knobs k);
  world = λ f. over (config.world f) (spec.world f);
  env = with_extra config.extra_env spec.env;
}

unfoldable pub apply_turn_config :
    {V D : Type 0} → AgentSpec V D → Option (TurnConfig V) → AgentSpec V D
apply_turn_config spec none = spec
apply_turn_config spec (some config) = record spec {
  knobs = λ k. over (config.knobs k) (spec.knobs k);
}
