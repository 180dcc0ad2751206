-- ===== src/ClaudeCode/Loop/Halting.antt =====
-- What the operator's messages and the timeouts do to a turn that holds results back.
use harness_run.Base.{
  ℕ, String, ◌≡◌, refl, Bool, true, false, Option, none, some, List, [], ◌∷◌, if◌then◌else◌, All,
  IsEnded, append_one-IsEnded, Option-cases, inl, inr, ◌∙◌,
}
use harness_run.Control.{ControlMessage, user_event}
use harness_run.Events.{AgentEvent, is_result}
use harness_run.ClaudeCode.{steer_sent, Turn}
use harness_run.ClaudeCode.Results.{
  StderrTail, say, init, last_of, mark_interrupted, final_result, synthetic, text_or_interrupted,
  status,
}
use harness_run.ClaudeCode.Loop.{
  going, finished, left, finish, finish_last, resume_unanswered, deliver, on_timeout, on_control,
  checkpointed, settle, settle_stop, why, Why, interrupt_settles, resume, steered, tasks_wait,
  give_up, give_up_text, interrupt_now, interrupt_idle, interrupt_requested, finish_demoted,
  answer_of, later,
}
use harness_run.ClaudeCode.Loop.Holding.{
  IsRunning, Keeps, say-IsRunning, same-IsRunning, if-Keeps, stop-Keeps, steer-Keeps,
  last_of-IsResult,
}

module _ (session_id : String) (accepts : Option (String → Bool)) (checkpoint : Option AgentEvent)
    (stderr_tail : Option StderrTail)
    (plain : (e : AgentEvent) → checkpoint ≡ some e → is_result e ≡ false) where
  pub checkpointed-IsRunning :
      (t : Turn)
      → IsRunning t
      → IsRunning (checkpointed session_id accepts checkpoint stderr_tail t)
  checkpointed-IsRunning t h = elim (Option-cases checkpoint) [
    | inl e ↦ rw e h
    | inr (e, p) ↦ rw p (say-IsRunning e t (plain e p) h)
  ]

  final_result_kind :
      (others : List AgentEvent) (n : ℕ) (e : AgentEvent)
      → is_result (final_result session_id accepts checkpoint stderr_tail others n e) ≡ is_result e
  unfolding final_result
  final_result_kind others n e = elim (Option-cases e.raw) [
    | inl q ↦ rw q refl
    | inr (r, q) ↦ rw q refl
  ]

  pub finish-IsEnded :
      (others : List AgentEvent) (e : AgentEvent) (t : Turn)
      → is_result e ≡ true
      → IsRunning t
      → IsEnded is_result (finish session_id accepts checkpoint stderr_tail others e t).out
  unfolding finish
  finish-IsEnded others e t r h =
      append_one-IsEnded is_result (checkpointed session_id accepts checkpoint stderr_tail t).out
        (final_result session_id accepts checkpoint stderr_tail others t.turns_total e)
        (checkpointed-IsRunning t h).unfinished (final_result_kind others t.turns_total e ∙ r)

  pub finish_last-IsEnded :
      (interrupted : Bool) (e : AgentEvent) (es : List AgentEvent) (t : Turn)
      → All (λ x. is_result x ≡ true) (e ∷ es)
      → IsRunning t
      → IsEnded is_result
          (finish_last session_id accepts checkpoint stderr_tail interrupted e es t).out
  finish_last-IsEnded true e es t a h =
      finish-IsEnded (init (e ∷ es)) (mark_interrupted none (last_of e es)) t
        (last_of-IsResult e es a) h
  finish_last-IsEnded false e es t a h =
      finish-IsEnded (init (e ∷ es)) (last_of e es) t (last_of-IsResult e es a) h

  pub deliver-Keeps :
      (m : ControlMessage) (t : Turn)
      → IsRunning t
      → Keeps (deliver session_id accepts checkpoint stderr_tail m t)
  unfolding deliver user_event
  deliver-Keeps m t h = elim (Option-cases (answer_of t.queries)) [
    | inl q ↦
        rw (q, deliver, Keeps)
          (say-IsRunning (user_event m)
            (record t { queries = later t.queries; steers = steer_sent t.steers; active = true })
            refl
            (same-IsRunning t
              (record t { queries = later t.queries; steers = steer_sent t.steers; active = true })
              refl refl h))
    | inr (exc, q) ↦
        rw (q, deliver, Keeps)
          (same-IsRunning t (record t { queries = later t.queries }) refl refl h)
  ]

  settle_stop-IsEnded :
      (t : Turn)
      → IsRunning t
      → IsEnded is_result (settle_stop session_id accepts checkpoint stderr_tail t.demoted t).out
  settle_stop-IsEnded t h = go t.demoted h.held
    where
      go :
          (es : List AgentEvent)
          → All (λ x. is_result x ≡ true) es
          → IsEnded is_result (settle_stop session_id accepts checkpoint stderr_tail es t).out
      go [] a =
          finish-IsEnded [] (synthetic session_id "interrupted" false (text_or_interrupted t)) t
            refl h
      go (e ∷ es) a = finish_last-IsEnded true e es t a h

  settle-Keeps :
      (m : Option ControlMessage) (t : Turn)
      → IsRunning t
      → Keeps (settle session_id accepts checkpoint stderr_tail m t)
  settle-Keeps none t h = h
  settle-Keeps (some m) t h =
      stop-Keeps m.op (finished (settle_stop session_id accepts checkpoint stderr_tail t.demoted u))
        (deliver session_id accepts checkpoint stderr_tail m u) (settle_stop-IsEnded u k)
        (deliver-Keeps m u k)
    where
      u : Turn
      u = record t { interrupt_pending = none }

      k : IsRunning u
      k = same-IsRunning t u refl refl h

  finish_demoted-Keeps :
      (t : Turn)
      → IsRunning t
      → Keeps (finish_demoted session_id accepts checkpoint stderr_tail t.demoted t)
  finish_demoted-Keeps t h = go t.demoted h.held
    where
      go :
          (es : List AgentEvent)
          → All (λ x. is_result x ≡ true) es
          → Keeps (finish_demoted session_id accepts checkpoint stderr_tail es t)
      go [] a = h
      go (e ∷ es) a = finish_last-IsEnded false e es t a h

  give_up-IsRunning :
      (t : Turn) → IsRunning t → IsRunning (give_up session_id accepts checkpoint stderr_tail t)
  give_up-IsRunning t h =
      say-IsRunning
        (status "task_wait_timeout" (give_up_text session_id accepts checkpoint stderr_tail t)) t
        refl h

  interrupt_now-Keeps :
      (m : ControlMessage) (t : Turn)
      → IsRunning t
      → Keeps (interrupt_now session_id accepts checkpoint stderr_tail m t)
  interrupt_now-Keeps m t h = go t.demoted h.held
    where
      u : Turn
      u = record t { interrupt_pending = some m }

      k : IsRunning u
      k = same-IsRunning t u refl refl h

      v : Turn
      v = record t { steer_deadline = false }

      go :
          (es : List AgentEvent)
          → All (λ x. is_result x ≡ true) es
          → Keeps (elim es [
            | [] ↦ going u
            | f ∷ fs ↦
                if t.active
                then going u
                else interrupt_idle session_id accepts checkpoint stderr_tail m f fs t
          ])
      go [] a = k
      go (e ∷ es) a =
          if-Keeps t.active (going u)
            (interrupt_idle session_id accepts checkpoint stderr_tail m e es t) k
            (stop-Keeps m.op
              (finished (finish_last session_id accepts checkpoint stderr_tail true e es t))
              (deliver session_id accepts checkpoint stderr_tail m v)
              (finish_last-IsEnded true e es t a h)
              (deliver-Keeps m v (same-IsRunning t v refl refl h)))

  pub on_control-Keeps :
      (m : ControlMessage) (t : Turn)
      → IsRunning t
      → Keeps (on_control session_id accepts checkpoint stderr_tail m t)
  unfolding on_control
  on_control-Keeps m t h =
      steer-Keeps m.op (deliver session_id accepts checkpoint stderr_tail m t)
        (interrupt_now session_id accepts checkpoint stderr_tail m
          (say (interrupt_requested session_id accepts checkpoint stderr_tail m) t))
        (deliver-Keeps m t h)
        (interrupt_now-Keeps m
          (say (interrupt_requested session_id accepts checkpoint stderr_tail m) t)
          (say-IsRunning (interrupt_requested session_id accepts checkpoint stderr_tail m) t refl
            h))

  pub on_timeout-Keeps :
      (t : Turn) → IsRunning t → Keeps (on_timeout session_id accepts checkpoint stderr_tail t)
  unfolding on_timeout
  on_timeout-Keeps t h = by_why (why t)
    where
      settled : Turn
      settled = record t { steer_deadline = false; steers = record { undelivered = 0; staged = 0 } }

      by_why :
          (w : Option Why)
          → Keeps (elim w [
            | none ↦ going t
            | some resume ↦ finished (
                finish session_id accepts checkpoint stderr_tail t.demoted
                  (resume_unanswered session_id accepts checkpoint stderr_tail)
                  t)
            | some interrupt_settles ↦
                settle session_id accepts checkpoint stderr_tail t.interrupt_pending t
            | some steered ↦
                finish_demoted session_id accepts checkpoint stderr_tail settled.demoted settled
            | some tasks_wait ↦ left (give_up session_id accepts checkpoint stderr_tail t)
          ])
      by_why none = h
      by_why (some resume) =
          finish-IsEnded t.demoted (resume_unanswered session_id accepts checkpoint stderr_tail) t
            refl h
      by_why (some interrupt_settles) = settle-Keeps t.interrupt_pending t h
      by_why (some steered) = finish_demoted-Keeps settled (same-IsRunning t settled refl refl h)
      by_why (some tasks_wait) = give_up-IsRunning t h
