-- ===== src/Hosted.antt =====
-- A turn of Claude Code on a sandbox's worker, end to end: harness_run/runtime/sandbox/worker.py with
-- harness_run/harness/claude_code.py.
use harness_run.Base.{String, Bool, Option, List}
use harness_run.Events.{AgentEvent, Resources}
use harness_run.ClaudeCode.Results.{StderrTail}
use harness_run.ClaudeCode.Loop.{Item, Ended, unended, returned, failed}
use harness_run.ClaudeCode.Reading.{run, new_turn}
use harness_run.ClaudeCode.Reading.Ending.{Settled}
use harness_run.Worker.Running.{HarnessEnd, finished, raised}

-- What `resolve_harness(spec).run(spec, rc)` yields, and how it ends.
abbrev pub events_of : Ended → List AgentEvent
events_of (unended t) = t.out
events_of (returned t) = t.out
events_of (failed exc t) = t.out

abbrev pub end_of : Ended → HarnessEnd
end_of (failed exc t) = raised exc
end_of r = finished

-- It returned without a result.
abbrev pub IsBare : Ended → Type 0
IsBare (returned t) = Settled t
IsBare r = ⊥

abbrev pub IsOver : Ended → Type 0
IsOver (unended t) = ⊥
IsOver r = Unit

module _ (turn_id : String) (sandbox : Option String) (streamed : Bool)
    (observed : AgentEvent → Option Resources) (csid : String) (accepts : Option (String → Bool))
    (checkpoint : Option AgentEvent) (stderr_tail : Option StderrTail) where
  abbrev pub claude : List Item → Bool → List (Option String) → Ended
  claude is resumed queries =
      run csid accepts checkpoint stderr_tail is
        (new_turn csid accepts checkpoint stderr_tail resumed queries)
