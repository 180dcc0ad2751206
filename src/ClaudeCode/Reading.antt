-- ===== src/ClaudeCode/Reading.antt =====
-- harness_run/harness/claude_code.py, `ClaudeCodeHarness._run`: what it does with an event of the
-- CLI, and the turn as a whole.
pub mod Keeping
pub mod Ending
use harness_run.Base.{
  ℕ, ◌+◌, String, ◌<>◌, Bool, true, false, not, Option, none, some, List, [], ◌∷◌, if◌then◌else◌,
  length, eqb,
}
use harness_run.Base.Texts.{clip, last_chars, decimal}
use harness_run.Control.{ControlMessage, ControlOp, steer, interrupt, stop}
use harness_run.Events.{AgentEvent, Raw, is_result}
use harness_run.ClaudeCode.{
  raw_of, Reason, pending, undelivered, tasks_waiting, steers_waiting, Turn, union,
}
use harness_run.ClaudeCode.Results.{
  StderrTail, status, say, demote, text_or_interrupted, mark_interrupted, is_housekeeping, note,
  or_zero,
}
use harness_run.ClaudeCode.Loop.{
  Item, ended, timed_out, control, message, broken, Flow, going, finished, left, crashed, Ended,
  unended, returned, failed, finish, finish_last, resume_unanswered, deliver, on_timeout,
  on_control, checkpointed,
}

-- As in `Results`.
module _ (session_id : String) (accepts : Option (String → Bool)) (checkpoint : Option AgentEvent)
    (stderr_tail : Option StderrTail) where
  -- The result that answers an interrupt.
  abbrev pub on_settled : ControlMessage → AgentEvent → Turn → Flow
  on_settled m e t =
      let u =
        say
          (status "interrupted_segment" "turn interrupted; continuing with the operator's message")
          (demote e t) in
      let sent = deliver session_id accepts checkpoint stderr_tail m u in
      elim m.op [
        | stop ↦ finished (
            finish session_id accepts checkpoint stderr_tail t.demoted
              (mark_interrupted (some (text_or_interrupted t)) e) t)
        | _ ↦ sent
      ]

  abbrev pub prompt_status : AgentEvent
  prompt_status =
      status "awaiting_resume_prompt" "resume housekeeping finished; waiting for the queued prompt"

  abbrev pub await_prompt : Turn → Turn
  await_prompt t =
      say prompt_status
        (record t { awaiting_resume_prompt = true; active = false; resume_deadline = true })

  abbrev pub steer_status : AgentEvent
  steer_status =
      status "awaiting_steer"
        "turn ended with an operator message still queued; waiting briefly for the model to take it"

  abbrev pub await_steer : AgentEvent → Turn → Turn
  await_steer e t = say steer_status (record (demote e t) { active = false; steer_deadline = true })

  abbrev pub reason_text : Reason → String
  reason_text pending = "pending"
  reason_text undelivered = "undelivered"

  -- `len(pending) or len(undelivered)`
  abbrev pub waited_for : Turn → ℕ
  waited_for t =
      if eqb (length t.tasks.pending) 0
      then length (union t.tasks.undelivered t.tasks.staged)
      else length t.tasks.pending

  abbrev pub is_pending : Reason → Bool
  is_pending pending = true
  is_pending undelivered = false

  abbrev pub tasks_status : Reason → Turn → AgentEvent
  tasks_status r t = status "awaiting_tasks" (
      "turn paused awaiting background tasks ("
      <> reason_text r
      <> ": "
      <> decimal (waited_for t)
      <> ")")

  abbrev pub await_tasks : Reason → AgentEvent → Turn → Turn
  await_tasks r e t =
      say (tasks_status r t) (record (demote e t) { active = false; wait_deadline = is_pending r })

  -- A result that is neither the answer to an interrupt nor of housekeeping.
  unfoldable pub on_answer : AgentEvent → Turn → Flow
  on_answer e t =
      let ends = finished (finish session_id accepts checkpoint stderr_tail t.demoted e t) in
      let held = if steers_waiting t.steers then going (await_steer e t) else ends in
      if (raw_of e).is_error
      then held
      else elim (tasks_waiting t.tasks) [ none ↦ held | some r ↦ going (await_tasks r e t) ]

  unfoldable pub on_result : AgentEvent → Turn → Flow
  unfolding on_answer
  on_result e t =
      let u = record t { turns_total = t.turns_total + or_zero (raw_of e).num_turns } in
      let answer = on_answer e (record u {
        resume_opening = false;
        awaiting_resume_prompt = false;
        resume_deadline = false;
      }) in
      elim u.interrupt_pending [
        | some m ↦ on_settled m e (record u { interrupt_pending = none })
        | none ↦ if is_housekeeping e u then going (await_prompt u) else answer
      ]

  unfoldable pub on_event : AgentEvent → Turn → Flow
  unfolding note on_result
  on_event e t =
      let answer = on_result e (note e t) in
      if is_result e then answer else going (say e (note e t))

  -- The events of one message, as long as the turn goes on.
  unfoldable pub on_events : List AgentEvent → Turn → Flow
  unfolding on_event
  on_events [] t = going t
  on_events (e ∷ es) t = elim (on_event e t) [
    | going u ↦ on_events es u
    | finished u ↦ finished u
    | left u ↦ left u
    | crashed exc u ↦ crashed exc u
  ]

  unfoldable pub on_item : Item → Turn → Flow
  unfolding on_timeout on_control on_events
  on_item ended t = left t
  on_item timed_out t = on_timeout session_id accepts checkpoint stderr_tail t
  on_item (control m) t = on_control session_id accepts checkpoint stderr_tail m t
  on_item (message es) t = on_events es t
  on_item (broken exc) t = crashed exc t

  abbrev pub finish_or : Ended → List AgentEvent → Turn → Ended
  finish_or other [] t = other
  finish_or other (e ∷ es) t =
      returned (finish_last session_id accepts checkpoint stderr_tail false e es t)

  abbrev pub finish_unanswered : Turn → Ended
  finish_unanswered t = returned (
      finish session_id accepts checkpoint stderr_tail t.demoted
        (resume_unanswered session_id accepts checkpoint stderr_tail) t)

  -- Behind the loop.
  unfoldable pub after_loop : Turn → Ended
  after_loop t =
      let fallback =
        finish_or (returned (checkpointed session_id accepts checkpoint stderr_tail t)) t.demoted
          t in
      if t.awaiting_resume_prompt then finish_unanswered t else fallback

  abbrev pub shown_tail : Turn → Turn
  shown_tail t = elim stderr_tail [
    | none ↦ t
    | some s ↦ say (status "claude_stderr" ("claude stderr (tail): " <> s.tail)) t
  ]

  -- The text of the exception that is raised, or the one that wraps it.
  abbrev pub raised_text : String → String
  raised_text exc = elim stderr_tail [
    | none ↦ exc
    | some s ↦
        exc <> " [claude stderr tail: " <> last_chars 500 s.tail <> "] (full log: " <> s.log <> ")"
  ]

  abbrev pub late_error : String → Turn → Turn
  late_error exc t =
      say
        (status "late_harness_error"
          ("harness failed while awaiting background tasks: " <> clip 200 exc))
        t

  abbrev pub finish_late : String → List AgentEvent → Turn → Ended
  finish_late exc [] t = failed (raised_text exc) t
  finish_late exc (e ∷ es) t =
      returned (finish_last session_id accepts checkpoint stderr_tail false e es (late_error exc t))

  -- The `except`.
  unfoldable pub on_crash : String → Turn → Ended
  on_crash exc t =
      let u = shown_tail t in
      let fallback = finish_late exc u.demoted u in
      if u.awaiting_resume_prompt then finish_unanswered u else fallback

  -- The loop, over what `next` gives.
  unfoldable pub run : List Item → Turn → Ended
  unfolding on_item after_loop on_crash
  run [] t = unended t
  run (i ∷ is) t = elim (on_item i t) [
    | going u ↦ run is u
    | finished u ↦ returned u
    | left u ↦ after_loop u
    | crashed exc u ↦ on_crash exc u
  ]

  -- What the turn starts with; `resumed` says that the options name a conversation to resume.
  abbrev pub new_turn : Bool → List (Option String) → Turn
  new_turn resumed queries = record {
    tasks = record { pending = []; undelivered = []; staged = [] };
    steers = record { undelivered = 0; staged = 0 };
    demoted = [];
    turns_total = 0;
    active = true;
    resume_opening = resumed;
    orphaned_resume_task = false;
    awaiting_resume_prompt = false;
    resume_deadline = false;
    steer_deadline = false;
    wait_deadline = false;
    interrupt_pending = none;
    last_text = "";
    queries = queries;
    out = [];
  }
