-- ===== src/Tests/ClaudeRuns.antt =====
-- Turns of Claude Code at concrete messages.
use harness_run.Base.{true, inr, ℕ, ℕ, String, ◌≡◌, refl, false, Option, none, some, List, [], ◌∷◌}
use harness_run.Control.{ControlMessage, steer, stop, user_event}
use harness_run.Events.{AgentEvent, Kind, Raw, no_keys, is_result, result}
use harness_run.ClaudeCode.{steers_waiting, tasks_waiting, observe_tasks, observe_steers}
use harness_run.ClaudeCode.Results.{is_housekeeping}
use harness_run.ClaudeCode.Loop.{
  finish, Item, control, message, broken, Ended, returned, failed, unended,
}
use harness_run.ClaudeCode.Reading.{run, new_turn}
use harness_run.ClaudeCode.Reading.Ending.{IsAnswered, run-IsAnswered}
use harness_run.Hosted.{events_of, end_of}
use harness_run.Worker.Running.{set_up, Running, run_turn}
use harness_run.ClaudeCode.Delivery.{Met, sent, seen, track, owed, steers_waiting-track}

abbrev event_of : Kind → String → Raw → AgentEvent
event_of kind summary raw = record {
  kind = kind;
  summary = summary;
  raw = some raw;
  cost_usd = none;
  usage = none;
}

abbrev said : AgentEvent
said = event_of Kind.message "done so far" no_keys

abbrev started : AgentEvent
started =
    event_of Kind.status "" (record no_keys { event = some "task_started"; task_id = some "k1" })

abbrev ended_task : AgentEvent
ended_task =
    event_of Kind.status "" (record no_keys { event = some "task_terminal"; task_id = some "k1" })

abbrev initial : AgentEvent
initial = event_of Kind.status "" (record no_keys { subtype = some "init" })

abbrev success : String → AgentEvent
success text =
    event_of Kind.result text (record no_keys { subtype = some "success"; num_turns = some 2 })

abbrev steering : ControlMessage
steering = record { op = steer; message = some "use staging"; message_id = "m1" }

abbrev stopping : ControlMessage
stopping = record { op = stop; message = none; message_id = "m2" }

abbrev saved : AgentEvent
saved = event_of Kind.status "checkpoint saved" (record no_keys { event = some "checkpoint_saved" })

saved_plain : (e : AgentEvent) → some saved ≡ some e → is_result e ≡ false
saved_plain e p = rw (← some_is p) refl
  where
    some_is : some saved ≡ some e → saved ≡ e
    some_is q = cc

-- A result while a task runs, the task's end, the next invocation, and its result.
abbrev waits : List Item
waits =
    message (initial ∷ started ∷ said ∷ success "first" ∷ [])
    ∷ message (ended_task ∷ initial ∷ said ∷ [])
    ∷ message (success "second" ∷ [])
    ∷ []

-- The CLI dies while a task runs behind a result.
abbrev dies : List Item
dies = message (initial ∷ started ∷ success "first" ∷ []) ∷ broken "exit 1" ∷ []

-- The operator steers, and stops the turn that waits to see whether the model took the message.
abbrev halts : List Item
halts =
    message (initial ∷ said ∷ [])
    ∷ control steering
    ∷ message (success "first" ∷ [])
    ∷ control stopping
    ∷ []

abbrev out_of : Ended → List AgentEvent
out_of (unended t) = t.out
out_of (returned t) = t.out
out_of (failed exc t) = t.out

abbrev ran : List Item → Ended
ran is = run "c1" none (some saved) none is (new_turn "c1" none (some saved) none false [])

abbrev results_of : List AgentEvent → List (String × Option ℕ)
results_of [] = []
results_of (e ∷ es) =
    let rest = results_of es in
    elim e.kind [
      | result ↦ (e.summary, elim e.raw [ none ↦ none | some r ↦ r.num_turns ]) ∷ rest
      | _ ↦ rest
    ]

waits_result : results_of (out_of (ran waits)) ≡ ("second", some 4) ∷ []
unfolding run is_housekeeping tasks_waiting observe_tasks steers_waiting observe_steers finish
    user_event
waits_result = refl

dies_result : results_of (out_of (ran dies)) ≡ ("first", some 2) ∷ []
unfolding run is_housekeeping tasks_waiting observe_tasks steers_waiting observe_steers finish
    user_event
dies_result = refl

halts_result : results_of (out_of (ran halts)) ≡ ("first", some 2) ∷ []
unfolding run is_housekeeping tasks_waiting observe_tasks steers_waiting observe_steers finish
    user_event
halts_result = refl

run-IsAnswered_example : IsAnswered (ran waits)
run-IsAnswered_example = run-IsAnswered "c1" none (some saved) none saved_plain waits false []

abbrev mets : List Met
mets = sent ∷ seen said ∷ seen initial ∷ seen said ∷ sent ∷ []

steers_waiting-track_example :
    steers_waiting (track mets (record { undelivered = 0; staged = 0 })) ≡ owed mets
steers_waiting-track_example = steers_waiting-track mets

-- A worker's turn whose CLI dies while a task runs behind a result.
abbrev hosted : Running
hosted =
    run_turn "t1" none true (λ e. none) "s1" set_up false false (inr ("workspace ready", no_keys))
      (events_of (ran dies)) (end_of (ran dies)) [] []
