-- ===== src/Run/Driving.antt =====
-- What a driven run ends in, for every source, ending and callback.
use harness_run.Base.{
  String, ◌≡◌, refl, true, Option, none, some, List, [], ◌∷◌, ◌++◌, Option-cases, inl, inr,
}
use harness_run.Events.{RunStatus, StopReason, AgentEvent, RunResult}
use harness_run.Structured.{Decoder}
use harness_run.Run.{
  event, Ending, exhausted, raised, DrivenRun, finalize, finish, drive_loop, drive, first_result,
  put,
}

module _ {Json : Type 0} (d : Decoder Json) where
  -- The run has one new completion, which is its result and its stop reason, and is idle.
  abbrev pub Completed : DrivenRun Json → DrivenRun Json → Type 0
  Completed before after =
      (r : RunResult Json) × (reason : StopReason) × (after.result ≡ some r)
      × (after.stop_reason ≡ some reason)
      × (after.completions ≡ before.completions ++ (r, reason) ∷ [])
      × (after.status ≡ RunStatus.idle)

  finalize-Completed :
      (ev : Option AgentEvent) (error : Option String) (run : DrivenRun Json)
      → Completed run (finalize d ev error run)
  unfolding finalize
  finalize-Completed none error run = (_, _, refl, refl, refl, refl)
  finalize-Completed (some ev) error run = (_, _, refl, refl, refl, refl)

  finish-Completed :
      (ev : Option AgentEvent) (ending : Ending) (run : DrivenRun Json)
      → Completed run (finish d ev ending run)
  unfolding finish
  finish-Completed ev exhausted run = finalize-Completed ev none run
  finish-Completed ev (raised message) run = finalize-Completed ev (some message) (put _ run)
  finish-Completed ev Ending.cancelled run =
      finalize-Completed ev (some "interrupted") (record run { cancelled = true })

  drive_loop-Completed :
      (es : List AgentEvent) (ending : Ending) (ev : Option AgentEvent) (run : DrivenRun Json)
      → Completed run (drive_loop d es ending ev run)
  unfolding drive_loop
  drive_loop-Completed [] ending ev run = finish-Completed ev ending run
  drive_loop-Completed (e ∷ es) ending ev run = elim (Option-cases (run.on_event e)) [
    | inl q ↦
        rw (q, drive_loop)
          (drive_loop-Completed es ending (first_result d ev e) (put (event e) run))
    | inr (message, q) ↦
        rw (q, drive_loop) (finish-Completed (first_result d ev e) (raised message) run)
  ]

  -- However the source ends and whatever the callback does, a driven run becomes idle, has a
  -- result and a stop reason, and has reported exactly these two to its session, once.
  pub drive_completes :
      (es : List AgentEvent) (ending : Ending) (run : DrivenRun Json)
      → Completed run (drive d es ending run)
  unfolding drive
  drive_completes es ending run =
      drive_loop-Completed es ending none (record run { status = RunStatus.running })
