-- ===== src/ClaudeCode/Reading/Keeping.antt =====
-- What each event of the CLI does to a turn that holds results back.
use harness_run.Base.{
  String, ◌≡◌, refl, Bool, true, false, Option, none, some, List, [], ◌∷◌, if◌then◌else◌,
  Bool-cases, ◌+◌, inl, inr,
}
use harness_run.Control.{ControlMessage}
use harness_run.Events.{AgentEvent, is_result}
use harness_run.ClaudeCode.{Turn, tasks_waiting, steers_waiting, Reason, raw_of}
use harness_run.ClaudeCode.Results.{
  StderrTail, say, demote, mark_interrupted, is_housekeeping, note, text_or_interrupted, status,
  or_zero, text_or_interrupted,
}
use harness_run.ClaudeCode.Loop.{
  Item, ended, timed_out, control, message, broken, Flow, going, finished, left, crashed, finish,
  deliver,
}
use harness_run.ClaudeCode.Reading.{
  on_settled, await_prompt, await_steer, await_tasks, steer_status, tasks_status, prompt_status,
  is_pending, on_answer, on_result, on_event, on_events, on_item,
}
use harness_run.ClaudeCode.Loop.Holding.{
  IsRunning, Keeps, say-IsRunning, demote-IsRunning, same-IsRunning, if-Keeps, stop-Keeps,
  note-IsRunning,
}
use harness_run.ClaudeCode.Loop.Halting.{
  finish-IsEnded, deliver-Keeps, on_control-Keeps, on_timeout-Keeps,
}

module _ (session_id : String) (accepts : Option (String → Bool)) (checkpoint : Option AgentEvent)
    (stderr_tail : Option StderrTail)
    (plain : (e : AgentEvent) → checkpoint ≡ some e → is_result e ≡ false) where
  on_settled-Keeps :
      (m : ControlMessage) (e : AgentEvent) (t : Turn)
      → is_result e ≡ true
      → IsRunning t
      → Keeps (on_settled session_id accepts checkpoint stderr_tail m e t)
  on_settled-Keeps m e t r h =
      stop-Keeps m.op
        (finished (finish session_id accepts checkpoint stderr_tail t.demoted interrupted t))
        (deliver session_id accepts checkpoint stderr_tail m (say notice (demote e t)))
        (finish-IsEnded session_id accepts checkpoint stderr_tail plain t.demoted interrupted t r h)
        (deliver-Keeps session_id accepts checkpoint stderr_tail plain m (say notice (demote e t))
          (say-IsRunning notice (demote e t) refl (demote-IsRunning e t r h)))
    where
      interrupted : AgentEvent
      interrupted = mark_interrupted (some (text_or_interrupted t)) e

      notice : AgentEvent
      notice =
          status "interrupted_segment" "turn interrupted; continuing with the operator's message"

  on_answer-Keeps :
      (e : AgentEvent) (t : Turn)
      → is_result e ≡ true
      → IsRunning t
      → Keeps (on_answer session_id accepts checkpoint stderr_tail e t)
  unfolding on_answer
  on_answer-Keeps e t r h =
      if-Keeps (raw_of e).is_error held
        (elim (tasks_waiting t.tasks) [
          | none ↦ held
          | some w ↦ going (await_tasks session_id accepts checkpoint stderr_tail w e t)
        ])
        held-Keeps (by_reason (tasks_waiting t.tasks))
    where
      steer_held : Turn
      steer_held = record (demote e t) { active = false; steer_deadline = true }

      ends : Flow
      ends = finished (finish session_id accepts checkpoint stderr_tail t.demoted e t)

      held : Flow
      held =
          if steers_waiting t.steers
          then going (await_steer session_id accepts checkpoint stderr_tail e t)
          else ends

      held-Keeps : Keeps held
      held-Keeps =
          if-Keeps (steers_waiting t.steers)
            (going (await_steer session_id accepts checkpoint stderr_tail e t)) ends
            (say-IsRunning (steer_status session_id accepts checkpoint stderr_tail) steer_held refl
              (same-IsRunning (demote e t) steer_held refl refl (demote-IsRunning e t r h)))
            (finish-IsEnded session_id accepts checkpoint stderr_tail plain t.demoted e t r h)

      by_reason :
          (w : Option Reason)
          → Keeps (elim w [
            | none ↦ held
            | some w ↦ going (await_tasks session_id accepts checkpoint stderr_tail w e t)
          ])
      by_reason none = held-Keeps
      by_reason (some w) =
          say-IsRunning (tasks_status session_id accepts checkpoint stderr_tail w t)
            (record (demote e t) {
              active = false;
              wait_deadline = is_pending session_id accepts checkpoint stderr_tail w;
            })
            refl
            (same-IsRunning (demote e t)
              (record (demote e t) {
                active = false;
                wait_deadline = is_pending session_id accepts checkpoint stderr_tail w;
              })
              refl refl (demote-IsRunning e t r h))

  on_result-Keeps :
      (e : AgentEvent) (t : Turn)
      → is_result e ≡ true
      → IsRunning t
      → Keeps (on_result session_id accepts checkpoint stderr_tail e t)
  unfolding on_result
  on_result-Keeps e t r h = by_interrupt t.interrupt_pending
    where
      u : Turn
      u = record t { turns_total = t.turns_total + or_zero (raw_of e).num_turns }

      answered : Turn
      answered = record u {
        resume_opening = false;
        awaiting_resume_prompt = false;
        resume_deadline = false;
      }

      halted : Turn
      halted = record u { interrupt_pending = none }

      prompted : Turn
      prompted = record u { awaiting_resume_prompt = true; active = false; resume_deadline = true }

      by_interrupt :
          (m : Option ControlMessage)
          → Keeps (elim m [
            | some m ↦ on_settled session_id accepts checkpoint stderr_tail m e halted
            | none ↦
                if is_housekeeping e u
                then going (await_prompt session_id accepts checkpoint stderr_tail u)
                else on_answer session_id accepts checkpoint stderr_tail e answered
          ])
      by_interrupt (some m) = on_settled-Keeps m e halted r (same-IsRunning t halted refl refl h)
      by_interrupt none =
          if-Keeps (is_housekeeping e u)
            (going (await_prompt session_id accepts checkpoint stderr_tail u))
            (on_answer session_id accepts checkpoint stderr_tail e answered)
            (say-IsRunning (prompt_status session_id accepts checkpoint stderr_tail) prompted refl
              (same-IsRunning t prompted refl refl h))
            (on_answer-Keeps e answered r (same-IsRunning t answered refl refl h))

  on_event-Keeps :
      (e : AgentEvent) (t : Turn)
      → IsRunning t
      → Keeps (on_event session_id accepts checkpoint stderr_tail e t)
  unfolding on_event
  on_event-Keeps e t h = elim (Bool-cases (is_result e)) [
    | inl r ↦ rw (r, Keeps, on_event) (on_result-Keeps e (note e t) r (note-IsRunning e t h))
    | inr r ↦ rw (r, Keeps, on_event) (say-IsRunning e (note e t) r (note-IsRunning e t h))
  ]

  on_events-Keeps :
      (es : List AgentEvent) (t : Turn)
      → IsRunning t
      → Keeps (on_events session_id accepts checkpoint stderr_tail es t)
  unfolding on_events
  on_events-Keeps [] t h = h
  on_events-Keeps (e ∷ es) t h =
      by_flow (on_event session_id accepts checkpoint stderr_tail e t) (on_event-Keeps e t h)
        (λ u k. on_events-Keeps es u k)
    where
      by_flow :
          (f : Flow)
          → Keeps f
          → ((u : Turn)
              → IsRunning u
              → Keeps (on_events session_id accepts checkpoint stderr_tail es u))
          → Keeps (elim f [
            | going u ↦ on_events session_id accepts checkpoint stderr_tail es u
            | finished u ↦ finished u
            | left u ↦ left u
            | crashed exc u ↦ crashed exc u
          ])
      by_flow (going u) k more = more u k
      by_flow (finished u) k more = k
      by_flow (left u) k more = k
      by_flow (crashed exc u) k more = k

  pub on_item-Keeps :
      (i : Item) (t : Turn)
      → IsRunning t
      → Keeps (on_item session_id accepts checkpoint stderr_tail i t)
  unfolding on_item
  on_item-Keeps ended t h = h
  on_item-Keeps timed_out t h = on_timeout-Keeps session_id accepts checkpoint stderr_tail plain t h
  on_item-Keeps (control m) t h =
      on_control-Keeps session_id accepts checkpoint stderr_tail plain m t h
  on_item-Keeps (message es) t h = on_events-Keeps es t h
  on_item-Keeps (broken exc) t h = h
