-- ===== src/Run/Kept.antt =====
-- A terminal result survives whatever follows it.
use harness_run.Base.{
  String, ◌≡◌, refl, true, false, Option, none, some, List, [], ◌∷◌, ◌++◌, All, Option-cases,
  Bool-cases, inl, inr, ◌==◌,
}
use harness_run.Events.{RunStatus, AgentEvent, is_result}
use harness_run.Structured.{Decoder}
use harness_run.Run.{
  event, Ending, exhausted, raised, DrivenRun, finalize, finish, drive_loop, drive, build_result,
  abnormal_event, put,
}

module _ {Json : Type 0} (d : Decoder Json) where
  -- The result is the one built from the event, up to its warning.
  abbrev pub Keeps : AgentEvent → DrivenRun Json → DrivenRun Json → Type 0
  Keeps ev before after =
      let (built, reason) = build_result d ev before.session_id before.spec in
      (w : Option String) × (after.result ≡ some (record built { warning = w }))
      × (after.stop_reason ≡ some reason)

  finalize-Keeps :
      (ev : AgentEvent) (error : Option String) (run : DrivenRun Json)
      → Keeps ev run (finalize d (some ev) error run)
  unfolding finalize
  finalize-Keeps ev none run = (_, refl, refl)
  finalize-Keeps ev (some message) run = elim (Bool-cases (message == "interrupted")) [
    | inl e ↦ rw e (_, refl, refl)
    | inr e ↦ rw e (_, refl, refl)
  ]

  finish-Keeps :
      (ev : AgentEvent) (ending : Ending) (run : DrivenRun Json)
      → Keeps ev run (finish d (some ev) ending run)
  unfolding finish
  finish-Keeps ev exhausted run = finalize-Keeps ev none run
  finish-Keeps ev (raised message) run =
      finalize-Keeps ev (some message) (put (event (abnormal_event true message)) run)
  finish-Keeps ev Ending.cancelled run =
      finalize-Keeps ev (some "interrupted") (record run { cancelled = true })

  drive_loop-Keeps :
      (es : List AgentEvent) (ending : Ending) (ev : AgentEvent) (run : DrivenRun Json)
      → Keeps ev run (drive_loop d es ending (some ev) run)
  unfolding drive_loop
  drive_loop-Keeps [] ending ev run = finish-Keeps ev ending run
  drive_loop-Keeps (e ∷ es) ending ev run = elim (Option-cases (run.on_event e)) [
    | inl q ↦ rw (q, drive_loop) (drive_loop-Keeps es ending ev (put (event e) run))
    | inr (message, q) ↦ rw (q, drive_loop) (finish-Keeps ev (raised message) run)
  ]

  -- An event that is no result and on which the callback does not raise.
  abbrev pub Plain : DrivenRun Json → AgentEvent → Type 0
  Plain run e = (is_result e ≡ false) × (run.on_event e ≡ none)

  drive_loop-Keeps_first :
      (before : List AgentEvent) (ev : AgentEvent) (after : List AgentEvent) (ending : Ending)
      (run : DrivenRun Json)
      → All (Plain run) before
      → is_result ev ≡ true
      → Keeps ev run (drive_loop d (before ++ ev ∷ after) ending none run)
  unfolding drive_loop
  drive_loop-Keeps_first [] ev after ending run p r = elim (Option-cases (run.on_event ev)) [
    | inl q ↦ rw (q, r, drive_loop) (drive_loop-Keeps after ending ev (put (event ev) run))
    | inr (message, q) ↦ rw (q, r, drive_loop) (finish-Keeps ev (raised message) run)
  ]
  drive_loop-Keeps_first (e ∷ before) ev after ending run p r =
      rw (p.0.1, p.0.0, drive_loop)
        (drive_loop-Keeps_first before ev after ending (put (event e) run) p.1 r)

  -- The first terminal result decides. If it comes behind events that are no results and on which
  -- the callback does not raise, then whatever follows it - more events, a callback that raises,
  -- a harness that dies, a cancellation - the run's stop reason is that event's, and its result
  -- is the one built from that event, where only the warning may differ.
  pub first_result_kept :
      (before : List AgentEvent) (ev : AgentEvent) (after : List AgentEvent) (ending : Ending)
      (run : DrivenRun Json)
      → All (Plain run) before
      → is_result ev ≡ true
      → Keeps ev run (drive d (before ++ ev ∷ after) ending run)
  unfolding drive
  first_result_kept before ev after ending run p r =
      drive_loop-Keeps_first before ev after ending (record run { status = RunStatus.running }) p r
