-- ===== src/Tests/RunTurnRuns.antt =====
-- The turn's thread at concrete events.
use harness_run.Base.{
  String, ◌≡◌, refl, true, false, Option, none, some, List, [], ◌∷◌, ◌⊎◌, inl, inr, map,
}
use harness_run.Events.{AgentEvent, Kind, Raw, no_keys, Resources, MirroredBy}
use harness_run.Worker.Running.{
  Sampled, sampled, pressed, pressure_mirrored, set_up, Running, finished, raised, run_turn, raw_of,
}
use harness_run.Worker.Running.Logged.{IsFaithful}
use harness_run.Worker.Running.Surfaced.{run_turn-IsFaithful}
use harness_run.Worker.Running.Counted.{results}
use harness_run.Worker.Running.Ended.{results_due, results-run_turn}

abbrev unobserved : AgentEvent → Option Resources
unobserved e = none

abbrev said : AgentEvent
said = record { kind = Kind.message; summary = "hello"; raw = none; cost_usd = none; usage = none }

abbrev answered : AgentEvent
answered = record {
  kind = Kind.result;
  summary = "done";
  raw = some (record no_keys { subtype = some "success" });
  cost_usd = some 7;
  usage = none;
}

abbrev ready : String ⊎ (String × Raw)
ready = inr ("workspace ready", record no_keys { event = some "workspace_ready" })

-- A sample before the first event, and a warning of memory pressure, which reaches the mirror only
-- behind an event that came later.
abbrev samples : List (List Sampled)
samples =
    (sampled "resource sample" ∷ [])
    ∷ (pressed "memory pressure" ∷ [])
    ∷ []
    ∷ (pressure_mirrored "memory pressure" ∷ [])
    ∷ []

-- The write of the result succeeds; the harness then exits abnormally.
abbrev kept : Running
kept =
    run_turn "t1" (some "sb-1") true unobserved "s1" set_up true false ready (said ∷ answered ∷ [])
      (raised "exit 1") (true ∷ []) samples

-- The preparation raises, and the write of the result times out.
abbrev unprepared : Running
unprepared =
    run_turn "t1" none true unobserved "s1" set_up false false (inl "no space") [] finished [] []

abbrev names : List AgentEvent → List (Option String)
names es = map (λ e. (raw_of e).event) es

kept_events :
    names kept.live
    ≡ some "turn_started"
      ∷ some "memory_pressure"
      ∷ some "effective_spec"
      ∷ some "control_ready"
      ∷ some "workspace_ready"
      ∷ none
      ∷ none
      ∷ some "late_harness_error"
      ∷ []
unfolding run_turn
kept_events = refl

kept_mirrored :
    names kept.queued
    ≡ some "resource_sample"
      ∷ some "turn_started"
      ∷ some "memory_pressure"
      ∷ some "effective_spec"
      ∷ some "control_ready"
      ∷ some "workspace_ready"
      ∷ none
      ∷ none
      ∷ some "late_harness_error"
      ∷ []
unfolding run_turn
kept_mirrored = refl

unprepared_marked :
    map (λ e. (raw_of e).mirror) unprepared.live ≡ none ∷ none ∷ some MirroredBy.failed ∷ []
unfolding run_turn
unprepared_marked = refl

run_turn-IsFaithful_example : IsFaithful "t1" kept
run_turn-IsFaithful_example =
    run_turn-IsFaithful "t1" (some "sb-1") unobserved "s1" set_up true false ready
      (said ∷ answered ∷ []) (raised "exit 1") (true ∷ []) samples

results-run_turn_example : results unprepared.live ≡ results_due set_up (inl "no space") [] finished
results-run_turn_example =
    results-run_turn "t1" none true unobserved "s1" set_up false false (inl "no space") [] finished
      [] []
