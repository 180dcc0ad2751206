-- ===== src/Codex/Loop.antt =====
-- harness_run/harness/codex.py, `CodexHarness._run`, from the start of the turn on: what it does
-- with each thing that `ControlledStream.next` gives.
pub mod Capped
pub mod Uncapped
use harness_run.Base.{
  ℕ, ◌+◌, suc, String, ◌==◌, ◌<>◌, Bool, true, false, not, Option, none, some, List, [], ◌∷◌,
  if◌then◌else◌, leb,
}
use harness_run.Base.Texts.{clip, strip, decimal}
use harness_run.Control.{ControlMessage, ControlOp, steer, interrupt, stop, user_event}
use harness_run.Events.{AgentEvent, Raw, no_keys, Kind}
use harness_run.Codex.{
  ModelPrice, Counts, RunAccounting, observe, cost_usd, Limit, max_turns, budget, Completion,
  interrupted, Item, ended, timed_out, control, used, completed, agent_message, other, broken, Turn,
  Flow, going, finished, crashed, status, say, say_all, answer_of, later, remember_final,
  result_event,
}

-- The session; the spec's `max_turns` and `max_budget_usd`; what `_finalize` yields.
module _ (session_id : String) (turns_cap budget_cap : ℕ) (checkpoint : Option AgentEvent) where
  abbrev pub checkpointed : Turn → Turn
  checkpointed t = elim checkpoint [ none ↦ t | some e ↦ say e t ]

  unfoldable pub finish : Completion → Turn → Turn
  unfolding result_event
  finish c t = say (result_event session_id c t) (checkpointed t)

  -- The operator's message as a new turn on the same thread.
  abbrev pub continue_with : ControlMessage → Turn → Flow
  continue_with m t = elim (answer_of t.calls) [
    | some exc ↦ crashed exc (record t { calls = later t.calls })
    | none ↦ going (say (user_event m) (record t { calls = later t.calls }))
  ]

  abbrev pub settle : Option ControlMessage → Turn → Flow
  settle none t = going t
  settle (some m) t =
      let u = record t { interrupt_pending = none } in
      let next = continue_with m u in
      elim m.op [ interrupt ↦ next | _ ↦ finished (finish interrupted u) ]

  abbrev pub on_steer : ControlMessage → Turn → Flow
  on_steer m t =
      let u = record t { calls = later t.calls } in
      elim (answer_of t.calls) [
        | some exc ↦
            going (say (status "steer_failed" ("steer not accepted by codex: " <> clip 200 exc)) u)
        | none ↦ going (say (user_event m) u)
      ]

  abbrev pub interrupt_requested : ControlMessage → AgentEvent
  interrupt_requested m = status "interrupt_requested" (
      "interrupt requested by the operator"
      <> (elim m.op [ interrupt ↦ "; continuing with their message" | _ ↦ "" ]))

  abbrev pub on_halt : ControlMessage → Turn → Flow
  on_halt m t = going (
      say (interrupt_requested m)
        (record t { interrupts = t.interrupts + 1; interrupt_pending = some m }))

  abbrev pub budget_hit : Option ℕ → Option Limit
  budget_hit none = none
  budget_hit (some cost) = if leb budget_cap cost then some budget else none

  -- The cap that the turn has hit, the turns first.
  unfoldable pub limit_hit : RunAccounting → Option Limit
  limit_hit a = if leb turns_cap a.model_calls then some max_turns else budget_hit (cost_usd a)

  abbrev pub limit_text : Limit → String
  limit_text max_turns = "max_turns"
  limit_text budget = "budget"

  -- Without the numbers of the calls and of the costs.
  abbrev pub limit_status : Limit → AgentEvent
  limit_status l = status "limit_interrupt" (limit_text l <> " cap hit; interrupting the turn")

  abbrev pub check_limit : Option Limit → Turn → Turn
  check_limit none t = t
  check_limit (some l) t =
      say (limit_status l) (record t { limit = some l; interrupts = t.interrupts + 1 })

  unfoldable pub on_used : Counts → Turn → Turn
  unfolding observe limit_hit
  on_used last t =
      let u = record t { acct = observe last t.acct } in
      let checked = check_limit (limit_hit u.acct) u in elim t.limit [ none ↦ checked | some l ↦ u ]

  abbrev pub segment_ended : AgentEvent
  segment_ended =
      status "interrupted_segment" "turn interrupted; continuing with the operator's message"

  unfoldable pub on_completed : Completion → Turn → Flow
  unfolding finish
  on_completed c t =
      let u = record t { interrupt_pending = none } in
      let last = finished (finish c u) in
      elim t.interrupt_pending [
        | none ↦ last
        | some m ↦
            let next = continue_with m (say segment_ended u) in
            elim m.op [ interrupt ↦ next | _ ↦ last ]
      ]

  unfoldable pub on_message : String → Bool → Turn → Turn
  unfolding remember_final
  on_message text is_final t =
      let u =
        say (record (status "" text) { kind = Kind.message; raw = none })
          (remember_final text is_final t) in
      if strip text == "" then t else u

  unfoldable pub on_item : Item → Turn → Flow
  unfolding on_used on_completed on_message
  on_item ended t = crashed "codex stream ended without a turn/completed event" t
  on_item timed_out t = settle t.interrupt_pending t
  on_item (control m) t =
      let steered = on_steer m t in
      let halted = on_halt m t in elim m.op [ steer ↦ steered | _ ↦ halted ]
  on_item (used last) t = going (on_used last t)
  on_item (completed c) t = on_completed c t
  on_item (agent_message text is_final) t = going (on_message text is_final t)
  on_item (other es) t = going (say_all es t)
  on_item (broken exc) t = crashed exc t

  -- The loop, as long as the turn goes on.
  unfoldable pub run : List Item → Turn → Flow
  unfolding on_item
  run [] t = going t
  run (i ∷ is) t = elim (on_item i t) [
    | going u ↦ run is u
    | finished u ↦ finished u
    | crashed exc u ↦ crashed exc u
  ]

-- What a turn starts with; `price` is `pricing.model_price`'s.
abbrev pub new_turn : Option ModelPrice → List (Option String) → Turn
new_turn price calls = record {
  acct = record {
    price = price;
    model_calls = 0;
    input_tokens = 0;
    cached_input_tokens = 0;
    output_tokens = 0;
    reasoning_output_tokens = 0;
    cache_write_input_tokens = none;
  };
  limit = none;
  interrupt_pending = none;
  final_text = "";
  final_is_final_phase = false;
  interrupts = 0;
  calls = calls;
  out = [];
}
