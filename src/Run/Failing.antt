-- ===== src/Run/Failing.antt =====
-- A source without a terminal result.
use harness_run.Base.{
  String, ◌≡◌, refl, true, false, Option, none, some, List, [], ◌∷◌, All, Option-cases, Bool-cases,
  inl, inr, ◌==◌,
}
use harness_run.Events.{RunStatus, StopReason, AgentEvent, RunResult, is_result}
use harness_run.Structured.{Decoder}
use harness_run.Run.{
  event, Ending, exhausted, raised, DrivenRun, finalize, finish, drive_loop, drive, abnormal_event,
  put,
}

module _ {Json : Type 0} (d : Decoder Json) where
  -- The run ended as an error that has spent nothing that is known.
  abbrev pub Fails : DrivenRun Json → Type 0
  Fails after =
      (r : RunResult Json) × (after.result ≡ some r)
      × (r.is_error ≡ true)
      × (r.cost_usd ≡ none)
      × (r.structured_output ≡ none)
      × (after.stop_reason ≡ some StopReason.error)

  finalize-Fails :
      (error : Option String) (run : DrivenRun Json) → Fails (finalize d none error run)
  unfolding finalize
  finalize-Fails none run = (_, refl, refl, refl, refl, refl)
  finalize-Fails (some message) run = elim (Bool-cases (message == "interrupted")) [
    | inl e ↦ rw e (_, refl, refl, refl, refl, refl)
    | inr e ↦ rw e (_, refl, refl, refl, refl, refl)
  ]

  finish-Fails : (ending : Ending) (run : DrivenRun Json) → Fails (finish d none ending run)
  unfolding finish
  finish-Fails exhausted run = finalize-Fails none run
  finish-Fails (raised message) run =
      finalize-Fails (some message) (put (event (abnormal_event false message)) run)
  finish-Fails Ending.cancelled run =
      finalize-Fails (some "interrupted") (record run { cancelled = true })

  drive_loop-Fails :
      (es : List AgentEvent) (ending : Ending) (run : DrivenRun Json)
      → All (λ e. is_result e ≡ false) es
      → Fails (drive_loop d es ending none run)
  unfolding drive_loop
  drive_loop-Fails [] ending run p = finish-Fails ending run
  drive_loop-Fails (e ∷ es) ending run p = elim (Option-cases (run.on_event e)) [
    | inl q ↦ rw (q, p.0, drive_loop) (drive_loop-Fails es ending (put (event e) run) p.1)
    | inr (message, q) ↦ rw (q, p.0, drive_loop) (finish-Fails (raised message) run)
  ]

  -- A source that gives no terminal result ends the run in an error, for every ending.
  pub drive-Fails :
      (es : List AgentEvent) (ending : Ending) (run : DrivenRun Json)
      → All (λ e. is_result e ≡ false) es
      → Fails (drive d es ending run)
  unfolding drive
  drive-Fails es ending run p =
      drive_loop-Fails es ending (record run { status = RunStatus.running }) p
