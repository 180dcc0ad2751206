-- ===== src/Codex.antt =====
-- harness_run/harness/codex.py: the accounting of a Codex turn and its loop, on a model of
-- OpenAI's and without subagents; the prices are those of harness_run/harness/pricing.py.
pub mod Loop
pub mod Threads
use harness_run.Base.{
  ℕ, ◌+◌, ◌-◌, ◌*◌, suc, String, ◌==◌, ◌<>◌, Bool, true, false, not, ◌&&◌, ◌||◌, Option, none, some,
  List, [], ◌∷◌, if◌then◌else◌, append_one, leb,
}
use harness_run.Base.Texts.{clip, strip, decimal}
use harness_run.Control.{ControlMessage, ControlOp, steer, interrupt, stop, user_event}
use harness_run.Usage.{Usage, from_codex_counts}
use harness_run.Events.{AgentEvent, Raw, no_keys, Kind}

-- Prices in the unit of costs, for each token.
pub record ModelPrice : Type 0 where
  pub input_per_token : ℕ
  pub cached_input_per_token : ℕ
  pub output_per_token : ℕ

-- `ModelPrice.cost_usd`
unfoldable pub cost_of : ModelPrice → ℕ → ℕ → ℕ → ℕ
cost_of p input cached output =
    (input - cached) * p.input_per_token
    + cached * p.cached_input_per_token
    + output * p.output_per_token

-- The breakdown of one model call.
pub record Counts : Type 0 where
  pub input_tokens : Option ℕ
  pub cached_input_tokens : Option ℕ
  pub output_tokens : Option ℕ
  pub reasoning_output_tokens : Option ℕ
  pub cache_write_input_tokens : Option ℕ

abbrev pub or_zero : Option ℕ → ℕ
or_zero none = 0
or_zero (some n) = n

-- `_RunAccounting`
pub record RunAccounting : Type 0 where
  pub price : Option ModelPrice
  pub model_calls : ℕ
  pub input_tokens : ℕ
  pub cached_input_tokens : ℕ
  pub output_tokens : ℕ
  pub reasoning_output_tokens : ℕ
  pub cache_write_input_tokens : Option ℕ

abbrev pub plus_write : Option ℕ → Option ℕ → Option ℕ
plus_write none w = w
plus_write (some n) w = some (or_zero w + n)

-- `_RunAccounting.observe`
unfoldable pub observe : Counts → RunAccounting → RunAccounting
observe last a = record a {
  model_calls = a.model_calls + 1;
  input_tokens = a.input_tokens + or_zero last.input_tokens;
  cached_input_tokens = a.cached_input_tokens + or_zero last.cached_input_tokens;
  output_tokens = a.output_tokens + or_zero last.output_tokens;
  reasoning_output_tokens = a.reasoning_output_tokens + or_zero last.reasoning_output_tokens;
  cache_write_input_tokens = plus_write last.cache_write_input_tokens a.cache_write_input_tokens;
}

-- `_RunAccounting.cost_usd`
abbrev pub cost_usd : RunAccounting → Option ℕ
cost_usd a = elim a.price [
  | none ↦ none
  | some p ↦ some (cost_of p a.input_tokens a.cached_input_tokens a.output_tokens)
]

-- `_RunAccounting.usage`
abbrev pub usage_of : RunAccounting → Usage
usage_of a =
    from_codex_counts a.input_tokens a.cached_input_tokens a.cache_write_input_tokens
      a.output_tokens a.reasoning_output_tokens

pub data Limit : Type 0 where
  max_turns budget : Limit

-- How a turn is completed; a failure has its message.
pub data Completion : Type 0 where
  failed : Option String → Completion
  interrupted succeeded : Completion

-- What `next` gives: the stream's end, a timeout, an operator's message, the counts of a model
-- call, the end of a turn, an agent message with whether it is the final answer, what the
-- translator makes of any other notification, or an exception.
pub data Item : Type 0 where
  ended timed_out : Item
  control : ControlMessage → Item
  used : Counts → Item
  completed : Completion → Item
  agent_message : String → Bool → Item
  other : List AgentEvent → Item
  broken : String → Item

-- The variables of `_run` and its translator. `interrupts` counts the calls of
-- `handle.interrupt`, and `calls` has what the coming calls of `handle.steer` and `thread.turn`
-- raise, if they do.
pub record Turn : Type 0 where
  pub acct : RunAccounting
  pub limit : Option Limit
  pub interrupt_pending : Option ControlMessage
  pub final_text : String
  pub final_is_final_phase : Bool
  pub interrupts : ℕ
  pub calls : List (Option String)
  pub out : List AgentEvent

pub data Flow : Type 0 where
  going finished : Turn → Flow
  crashed : String → Turn → Flow

abbrev pub status : String → String → AgentEvent
status event summary = record {
  kind = Kind.status;
  summary = summary;
  raw = some (record no_keys { event = some event });
  cost_usd = none;
  usage = none;
}

abbrev pub say : AgentEvent → Turn → Turn
say e t = record t { out = append_one t.out e }

abbrev pub say_all : List AgentEvent → Turn → Turn
say_all [] t = t
say_all (e ∷ es) t = say_all es (say e t)

abbrev pub answer_of : List (Option String) → Option String
answer_of [] = none
answer_of (c ∷ cs) = c

abbrev pub later : List (Option String) → List (Option String)
later [] = []
later (c ∷ cs) = cs

-- `_remember_final`
unfoldable pub remember_final : String → Bool → Turn → Turn
remember_final text is_final t =
    if is_final || not t.final_is_final_phase
    then record t { final_text = text; final_is_final_phase = is_final }
    else t

abbrev pub or_text : String → String → String
or_text s d = if s == "" then d else s

abbrev pub result_of : String → Bool → String → Turn → Raw
result_of session_id is_error subtype t = record no_keys {
  subtype = some subtype;
  is_error = is_error;
  num_turns = some t.acct.model_calls;
  session_id = some session_id;
}

abbrev pub ended_event : Raw → String → Turn → AgentEvent
ended_event raw summary t = record {
  kind = Kind.result;
  summary = summary;
  raw = some raw;
  cost_usd = cost_usd t.acct;
  usage = some (usage_of t.acct);
}

-- `_result_event`
abbrev pub completed_event : String → Completion → Turn → AgentEvent
completed_event session_id (failed none) t =
    ended_event (result_of session_id true "error" t) "(run errored)" t
completed_event session_id (failed (some e)) t =
    ended_event (result_of session_id true "error" t) (or_text e "(run errored)") t
completed_event session_id interrupted t =
    ended_event (result_of session_id false "interrupted" t) (or_text t.final_text "(interrupted)")
      t
completed_event session_id succeeded t =
    ended_event (result_of session_id false "success" t) (or_text t.final_text "(no final text)") t

unfoldable pub result_event : String → Completion → Turn → AgentEvent
result_event session_id c t = elim t.limit [
  | none ↦ completed_event session_id c t
  | some max_turns ↦
      ended_event (result_of session_id true "error_max_turns" t)
        (or_text t.final_text ("(interrupted at max_turns=" <> decimal t.acct.model_calls <> ")")) t
  | some budget ↦
      ended_event (result_of session_id true "error_budget_exceeded" t)
        (or_text t.final_text "(interrupted: budget exceeded)") t
]
