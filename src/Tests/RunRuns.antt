-- ===== src/Tests/RunRuns.antt =====
-- Driven runs over short streams, with texts for the values of a structured output.
use harness_run.Base.{
  String, ◌≡◌, refl, true, none, some, [], ◌∷◌, ◌++◌, ◌==◌, if◌then◌else◌, map, any,
}
use harness_run.Base.Texts.{clip}
use harness_run.Events.{AgentEvent, Kind, Raw, no_keys, StopReason, is_result}
use harness_run.Structured.{Decoder, Schema, dict, passes, extract_json, parse_structured_output}
use harness_run.Run.{
  RunSpec, Ending, raised, DrivenRun, new_run, drive, build_result, stop_reason_for, iterate, event,
  sentinel,
}
use harness_run.Run.Driving.{drive_completes, Completed}
use harness_run.Run.Kept.{first_result_kept, Keeps}
use harness_run.Run.Failing.{drive-Fails, Fails}
use harness_run.Run.Streaming.{drive_streams, epilogue}

-- A text that begins with a brace or a bracket stands for the value that it decodes to.
abbrev decoder : Decoder String
decoder = record {
  loads = λ s. if clip 1 s == "{" then some s else if clip 1 s == "[" then some s else none;
  fence = λ s. none;
}

abbrev schema : Schema String
schema = dict (λ s. passes)

found : extract_json decoder "so {a} it is" ≡ some "{a}"
unfolding extract_json clip
found = refl

parsed : parse_structured_output decoder (some "so {a} it is") schema ≡ some "{a}"
unfolding parse_structured_output clip
parsed = refl

abbrev spec : RunSpec String
spec = record { output_schema = some schema; checkpoint = true }

abbrev say : Kind → String → Raw → AgentEvent
say kind summary raw = record {
  kind = kind;
  summary = summary;
  raw = some raw;
  cost_usd = some 12;
  usage = none;
}

abbrev hello : AgentEvent
hello = say Kind.message "hello" no_keys

abbrev answer : AgentEvent
answer = say Kind.result "noted" (record no_keys { segment_summaries = "no" ∷ "{a}" ∷ [] })

abbrev fresh : DrivenRun String
fresh = new_run "s1" spec (λ e. none)

drive_completes_example :
    Completed decoder fresh (drive decoder (hello ∷ answer ∷ []) (raised "exit 1") fresh)
drive_completes_example = drive_completes decoder (hello ∷ answer ∷ []) (raised "exit 1") fresh

first_result_kept_example :
    Keeps decoder answer fresh
      (drive decoder ((hello ∷ []) ++ answer ∷ hello ∷ []) (raised "exit 1") fresh)
first_result_kept_example =
    first_result_kept decoder (hello ∷ []) answer (hello ∷ []) (raised "exit 1") fresh
      ((refl, refl), tt) refl

drive-Fails_example : Fails decoder (drive decoder (hello ∷ []) Ending.cancelled fresh)
drive-Fails_example = drive-Fails decoder (hello ∷ []) Ending.cancelled fresh (refl, tt)

drive_streams_example :
    let queue = (drive decoder (hello ∷ answer ∷ []) (raised "exit 1") fresh).queue in
    let expected =
      (hello ∷ answer ∷ []) ++ epilogue (any is_result (hello ∷ answer ∷ [])) (raised "exit 1") in
    (iterate queue ≡ expected) × (queue ≡ map event expected ++ sentinel ∷ [])
drive_streams_example =
    drive_streams decoder (hello ∷ answer ∷ []) (raised "exit 1") fresh refl (refl, (refl, tt))

limits :
    stop_reason_for (record no_keys { subtype = some "error_max_turns"; is_error = true }) true
    ≡ StopReason.max_turns
unfolding stop_reason_for
limits = refl

recovered_answer : (build_result decoder answer "s1" spec).0.structured_output ≡ some "{a}"
unfolding build_result clip
recovered_answer = refl
