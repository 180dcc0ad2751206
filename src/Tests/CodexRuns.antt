-- ===== src/Tests/CodexRuns.antt =====
-- Turns of Codex at concrete notifications.
use harness_run.Base.{ℕ, ◌≡◌, refl, Option, none, some, List, [], ◌∷◌}
use harness_run.Control.{ControlMessage, interrupt, user_event}
use harness_run.Codex.{
  ModelPrice, Counts, max_turns, interrupted, Item, control, used, completed, Flow, going, finished,
  crashed, cost_of,
}
use harness_run.Codex.Loop.{run, new_turn}
use harness_run.Codex.Loop.Uncapped.{StillGoes, run-completed}

abbrev price : Option ModelPrice
price = some (record { input_per_token = 10; cached_input_per_token = 1; output_per_token = 60 })

abbrev call : Counts
call = record {
  input_tokens = some 100;
  cached_input_tokens = some 40;
  output_tokens = some 5;
  reasoning_output_tokens = none;
  cache_write_input_tokens = none;
}

abbrev halt : ControlMessage
halt = record { op = interrupt; message = some "use staging"; message_id = "m1" }

-- Two calls hit the cap of two turns; the operator's message comes before the turn has ended,
-- and the next turn calls on.
abbrev items : List Item
items = used call ∷ used call ∷ control halt ∷ completed interrupted ∷ used call ∷ used call ∷ []

abbrev after : Flow
after = run "s1" 2 1000000 none items (new_turn price [])

abbrev asked : Flow → ℕ × ℕ
asked (going t) = (t.acct.model_calls, t.interrupts)
asked (finished t) = (t.acct.model_calls, t.interrupts)
asked (crashed exc t) = (t.acct.model_calls, t.interrupts)

asked-after : asked after ≡ (4, 2)
unfolding run user_event cost_of
asked-after = refl

run-completed_example :
    StillGoes 2
      (record (new_turn price []) {
        limit = some max_turns;
        interrupt_pending = some halt;
        calls = [];
      })
      (run "s1" 2 1000000 none
        (completed interrupted ∷ used call ∷ used call ∷ [])
        (record (new_turn price []) {
          limit = some max_turns;
          interrupt_pending = some halt;
          calls = [];
        }))
run-completed_example =
    run-completed "s1" 2 1000000 none (call ∷ call ∷ []) interrupted (some "use staging") "m1"
      max_turns (new_turn price [])
