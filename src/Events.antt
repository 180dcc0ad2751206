-- ===== src/Events.antt =====
-- harness_run/events.py: the plain data of a run. Costs are counts of a fixed small unit, and
-- `raw` holds the keys that the library itself reads.
use harness_run.Base.{ℕ, String, Bool, true, false, Option, none, List, []}
use harness_run.Usage.{Usage, ModelUsage}

pub data RunStatus : Type 0 where
  pending running idle terminated : RunStatus

pub data StopReason : Type 0 where
  needs_input end_turn max_turns budget_exceeded interrupted error : StopReason

pub data Kind : Type 0 where
  thinking tool_use tool_result message user status result : Kind

-- A value of `raw` where the code asks for an `int` that is no `bool`.
pub data Scalar : Type 0 where
  int : ℕ → Scalar
  bool : Bool → Scalar
  other : Scalar

-- A value of `raw["skill_sources"]`, where the code asks for a list of dicts.
pub data Source : Type 0 where
  dict : List (String × String) → Source
  other : Source

-- `raw["mirror"]`: who has written a terminal result to the mirror, or that no one has.
pub data MirroredBy : Type 0 where
  worker client failed : MirroredBy

-- `structured_output` says that the key is there.
pub record Raw : Type 0 where
  pub event : Option String
  pub subtype : Option String
  pub is_error : Bool
  pub num_turns : Option ℕ
  pub session_id : Option String
  pub turn_id : Option String
  pub worker : Option String
  pub mirror : Option MirroredBy
  pub message_id : Option String
  pub interrupt : Bool
  pub segment_summaries : List String
  pub memory_peak_bytes : Option Scalar
  pub memory_limit_bytes : Option Scalar
  pub cpu_usec : Option Scalar
  pub skill_sources : Option (List Source)
  pub task_id : Option String
  pub structured_output : Bool
  pub model_usage : Option (List (Option ModelUsage))

-- `{}`
abbrev pub no_keys : Raw
no_keys = record {
  event = none;
  subtype = none;
  is_error = false;
  num_turns = none;
  session_id = none;
  turn_id = none;
  worker = none;
  mirror = none;
  message_id = none;
  interrupt = false;
  segment_summaries = [];
  memory_peak_bytes = none;
  memory_limit_bytes = none;
  cpu_usec = none;
  skill_sources = none;
  task_id = none;
  structured_output = false;
  model_usage = none;
}

pub record AgentEvent : Type 0 where
  pub kind : Kind
  pub summary : String
  pub raw : Option Raw
  pub cost_usd : Option ℕ
  pub usage : Option Usage

abbrev pub is_result : AgentEvent → Bool
is_result e = elim e.kind [ result ↦ true | _ ↦ false ]

pub record Resources : Type 0 where
  pub memory_peak_bytes : Option ℕ
  pub memory_limit_bytes : Option ℕ
  pub cpu_usec : Option ℕ

-- `Json` is the type of structured outputs.
pub record RunResult (Json : Type 0) : Type 0 where
  pub text : Option String
  pub structured_output : Option Json
  pub structured_output_recovered : Bool
  pub is_error : Bool
  pub num_turns : ℕ
  pub cost_usd : Option ℕ
  pub usage : Option Usage
  pub session_id : Option String
  pub artifacts : List String
  pub warning : Option String
  pub resources : Option Resources
  pub skill_sources : Option (List (List (String × String)))
