-- ===== src/ClaudeCode.antt =====
-- harness_run/harness/claude_code.py: the state of a turn that a Claude Code process runs.
pub mod Results
pub mod Loop
pub mod Reading
pub mod Delivery
use harness_run.Base.{
  ℕ, ◌+◌, ◌<◌, ltb, String, ◌==◌, Bool, true, false, not, ◌&&◌, ◌||◌, Option, none, some, List, [],
  ◌∷◌, if◌then◌else◌, append_one, any, keep,
}
use harness_run.Control.{ControlMessage}
use harness_run.Events.{AgentEvent, Raw, no_keys, Kind, message, thinking, tool_use, tool_result}

abbrev pub raw_of : AgentEvent → Raw
raw_of e = elim e.raw [ none ↦ no_keys | some r ↦ r ]

-- `raw.get("event") == name`
abbrev pub is_event : String → AgentEvent → Bool
is_event name e = elim (raw_of e).event [ none ↦ false | some n ↦ n == name ]

-- `raw.get("subtype") == name`
abbrev pub has_subtype : String → AgentEvent → Bool
has_subtype name e = elim (raw_of e).subtype [ none ↦ false | some n ↦ n == name ]

abbrev pub is_output : AgentEvent → Bool
is_output e = elim e.kind [ message ↦ true | thinking ↦ true | tool_use ↦ true | _ ↦ false ]

abbrev pub is_tool_result : AgentEvent → Bool
is_tool_result e = elim e.kind [ tool_result ↦ true | _ ↦ false ]

abbrev pub is_message : AgentEvent → Bool
is_message e = elim e.kind [ message ↦ true | _ ↦ false ]

abbrev pub has_id : String → List String → Bool
has_id i ids = any (λ k. k == i) ids

-- A set with an element more.
abbrev pub with_id : String → List String → List String
with_id i ids = if has_id i ids then ids else append_one ids i

abbrev pub union : List String → List String → List String
union ids [] = ids
union ids (i ∷ more) = union (with_id i ids) more

-- `_TaskTracker`, without the tasks' descriptions.
pub record TaskTracker : Type 0 where
  pub pending : List String
  pub undelivered : List String
  pub staged : List String

-- The boundary of a model call, or its output.
abbrev pub stage : AgentEvent → TaskTracker → TaskTracker
stage e t =
    if is_tool_result e
    then record t { staged = union t.staged t.undelivered; undelivered = [] }
    else if is_output e
    then record t { staged = [] }
    else t

abbrev pub task_started : String → TaskTracker → TaskTracker
task_started i t = record t { pending = with_id i t.pending }

abbrev pub task_terminal : String → TaskTracker → TaskTracker
task_terminal i t =
    if has_id i t.pending
    then record t {
      pending = keep (λ k. not (k == i)) t.pending;
      undelivered = with_id i t.undelivered;
    }
    else t

abbrev pub task_id : AgentEvent → String
task_id e = elim (raw_of e).task_id [ none ↦ "" | some i ↦ i ]

-- `_TaskTracker.observe`
unfoldable pub observe_tasks : AgentEvent → TaskTracker → TaskTracker
observe_tasks e t =
    let t1 = stage e t in
    if is_event "task_started" e
    then task_started (task_id e) t1
    else if is_event "task_terminal" e
    then task_terminal (task_id e) t1
    else if has_subtype "init" e
    then record t1 { undelivered = []; staged = [] }
    else t1

pub data Reason : Type 0 where
  pending undelivered : Reason

abbrev pub is_empty : List String → Bool
is_empty [] = true
is_empty (i ∷ is) = false

-- `_TaskTracker.waiting`
unfoldable pub tasks_waiting : TaskTracker → Option Reason
tasks_waiting t =
    if not (is_empty t.pending)
    then some pending
    else if not (is_empty t.undelivered) || not (is_empty t.staged)
    then some undelivered
    else none

-- `_SteerTracker`
pub record SteerTracker : Type 0 where
  pub undelivered : ℕ
  pub staged : ℕ

abbrev pub steer_sent : SteerTracker → SteerTracker
steer_sent s = record s { undelivered = s.undelivered + 1 }

-- Where the CLI assembles the next model call.
abbrev pub is_boundary : AgentEvent → Bool
is_boundary e = is_tool_result e || has_subtype "init" e

-- `_SteerTracker.observe`
unfoldable pub observe_steers : AgentEvent → SteerTracker → SteerTracker
observe_steers e s =
    if is_boundary e
    then record { undelivered = 0; staged = s.staged + s.undelivered }
    else if is_output e
    then record s { staged = 0 }
    else s

-- `_SteerTracker.waiting`
unfoldable pub steers_waiting : SteerTracker → Bool
steers_waiting s = ltb 0 s.undelivered || ltb 0 s.staged

-- The variables of `_run`. Of a deadline, whether there is one; `interrupt_deadline` is there with
-- `interrupt_pending`. `active` is the phase, `queries` has what the coming calls of
-- `client.query` raise, if they do, and `out` the events that were yielded.
pub record Turn : Type 0 where
  pub tasks : TaskTracker
  pub steers : SteerTracker
  pub demoted : List AgentEvent
  pub turns_total : ℕ
  pub active : Bool
  pub resume_opening : Bool
  pub orphaned_resume_task : Bool
  pub awaiting_resume_prompt : Bool
  pub resume_deadline : Bool
  pub steer_deadline : Bool
  pub wait_deadline : Bool
  pub interrupt_pending : Option ControlMessage
  pub last_text : String
  pub queries : List (Option String)
  pub out : List AgentEvent
