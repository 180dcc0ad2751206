-- ===== src/ClaudeCode/Loop.antt =====
-- harness_run/harness/claude_code.py, `ClaudeCodeHarness._run` on a model of Anthropic's, without
-- the OpenRouter proxy: one turn over what `ControlledStream.next` gives.
pub mod Holding
pub mod Halting
use harness_run.Base.{
  ℕ, ◌+◌, suc, String, ◌==◌, ◌<>◌, Bool, true, false, not, ◌&&◌, ◌||◌, Option, none, some, List, [],
  ◌∷◌, ◌++◌, if◌then◌else◌, append_one, length, eqb,
}
use harness_run.Base.Texts.{clip, decimal}
use harness_run.Control.{ControlMessage, ControlOp, steer, interrupt, stop, user_event}
use harness_run.Events.{AgentEvent, Raw, no_keys, Kind, is_result}
use harness_run.ClaudeCode.{
  raw_of, Reason, pending, undelivered, tasks_waiting, steer_sent, steers_waiting, Turn,
}
use harness_run.ClaudeCode.Results.{
  StderrTail, status, say, init, last_of, demote, text_or_interrupted, synthetic, mark_interrupted,
  is_housekeeping, note, or_zero, final_result,
}

-- What `next` gives: the stream's end, a timeout, an operator's message, a message of the CLI as
-- the events that the translator makes of it, or an exception.
pub data Item : Type 0 where
  ended timed_out : Item
  control : ControlMessage → Item
  message : List AgentEvent → Item
  broken : String → Item

-- Where the loop is: it goes on, it has returned, it was left by `break`, or it has raised.
pub data Flow : Type 0 where
  going finished left : Turn → Flow
  crashed : String → Turn → Flow

-- How the whole turn ended, if it has.
pub data Ended : Type 0 where
  unended returned : Turn → Ended
  failed : String → Turn → Ended

abbrev pub answer_of : List (Option String) → Option String
answer_of [] = none
answer_of (q ∷ qs) = q

abbrev pub later : List (Option String) → List (Option String)
later [] = []
later (q ∷ qs) = qs

-- Why the next wait is bounded, where it is.
pub data Why : Type 0 where
  interrupt_settles resume steered tasks_wait : Why

unfoldable pub why : Turn → Option Why
why t = elim t.interrupt_pending [
  | some m ↦ some interrupt_settles
  | none ↦
      if t.resume_deadline
      then some resume
      else if t.steer_deadline
      then some steered
      else elim t.demoted [ [] ↦ none | e ∷ es ↦ if t.active then none else some tasks_wait ]
]

-- As in `Results`.
module _ (session_id : String) (accepts : Option (String → Bool)) (checkpoint : Option AgentEvent)
    (stderr_tail : Option StderrTail) where
  abbrev pub checkpointed : Turn → Turn
  checkpointed t = elim checkpoint [ none ↦ t | some e ↦ say e t ]

  -- `finish`, given the demoted results that are not the one it ends on.
  unfoldable pub finish : List AgentEvent → AgentEvent → Turn → Turn
  unfolding final_result
  finish others e t =
      let u = checkpointed t in
      say (final_result session_id accepts checkpoint stderr_tail others t.turns_total e) u

  abbrev pub resume_unanswered : AgentEvent
  resume_unanswered =
      synthetic session_id "error_resume_prompt_unanswered" true
        "Claude Code ended resume housekeeping without answering the new prompt"

  -- The end on the last demoted result, as it is or interrupted.
  abbrev pub finish_last : Bool → AgentEvent → List AgentEvent → Turn → Turn
  finish_last interrupted e es t =
      let last = last_of e es in
      finish (init (e ∷ es)) (if interrupted then mark_interrupted none last else last) t

  -- `deliver`, with its event.
  unfoldable pub deliver : ControlMessage → Turn → Flow
  deliver m t = elim (answer_of t.queries) [
    | some exc ↦ crashed exc (record t { queries = later t.queries })
    | none ↦ going (
        say (user_event m)
          (record t { queries = later t.queries; steers = steer_sent t.steers; active = true }))
  ]

  -- A stop that settles without a result of the CLI.
  abbrev pub settle_stop : List AgentEvent → Turn → Turn
  settle_stop [] t = finish [] (synthetic session_id "interrupted" false (text_or_interrupted t)) t
  settle_stop (e ∷ es) t = finish_last true e es t

  abbrev pub give_up_text : Turn → String
  give_up_text t = elim (tasks_waiting t.tasks) [
    | some pending ↦
        "gave up waiting on background tasks ("
        <> decimal (length t.tasks.pending)
        <> " still pending); finalizing with the result already produced"
    | _ ↦
        "gave up waiting for Claude Code to re-invoke after a background task notification; finalizing with the result already produced"
  ]

  abbrev pub give_up : Turn → Turn
  give_up t = say (status "task_wait_timeout" (give_up_text t)) t

  -- `finish(demoted[-1])`
  abbrev pub finish_demoted : List AgentEvent → Turn → Flow
  finish_demoted [] t = crashed "list index out of range" t
  finish_demoted (e ∷ es) t = finished (finish_last false e es t)

  abbrev pub settle : Option ControlMessage → Turn → Flow
  settle none t = going t
  settle (some m) t =
      let u = record t { interrupt_pending = none } in
      let sent = deliver m u in elim m.op [ stop ↦ finished (settle_stop t.demoted u) | _ ↦ sent ]

  -- A wait that timed out; one without a bound does not.
  unfoldable pub on_timeout : Turn → Flow
  unfolding why
  on_timeout t = elim (why t) [
    | none ↦ going t
    | some resume ↦ finished (finish t.demoted resume_unanswered t)
    | some interrupt_settles ↦ settle t.interrupt_pending t
    | some steered ↦
        finish_demoted t.demoted
          (record t { steer_deadline = false; steers = record { undelivered = 0; staged = 0 } })
    | some tasks_wait ↦ left (give_up t)
  ]

  abbrev pub interrupt_requested : ControlMessage → AgentEvent
  interrupt_requested m =
      record (status "interrupt_requested" (
        "interrupt requested by the operator"
        <> (elim m.op [ interrupt ↦ "; continuing with their message" | _ ↦ "" ]))) {
          raw = some (record no_keys {
            event = some "interrupt_requested";
            message_id = some m.message_id;
          });
        }

  -- An interrupt or a stop while the model is not running.
  abbrev pub interrupt_idle : ControlMessage → AgentEvent → List AgentEvent → Turn → Flow
  interrupt_idle m e es t =
      let sent = deliver m (record t { steer_deadline = false }) in
      elim m.op [ stop ↦ finished (finish_last true e es t) | _ ↦ sent ]

  abbrev pub interrupt_now : ControlMessage → Turn → Flow
  interrupt_now m t = elim t.demoted [
    | [] ↦ going (record t { interrupt_pending = some m })
    | e ∷ es ↦
        if t.active
        then going (record t { interrupt_pending = some m })
        else interrupt_idle m e es t
  ]

  -- An operator's message.
  unfoldable pub on_control : ControlMessage → Turn → Flow
  unfolding deliver
  on_control m t =
      let steered = deliver m t in
      let halted = interrupt_now m (say (interrupt_requested m) t) in
      elim m.op [ steer ↦ steered | _ ↦ halted ]
