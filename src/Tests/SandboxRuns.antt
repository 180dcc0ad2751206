-- ===== src/Tests/SandboxRuns.antt =====
-- The control messages, a worker and a dispatch at concrete requests.
use harness_run.Base.{
  ℕ, suc, String, ◌≡◌, ◌<◌, refl, Bool, true, false, none, some, List, [], ◌∷◌, ◌++◌, In, inl,
  arith, Distinct, ◌⊎◌, length,
}
use harness_run.Control.{
  ControlMessage, steer, interrupt, to_dict, from_dict, parsed, ControlledStream, unasked, waiting,
  next, text, Dict,
}
use harness_run.Control.Messages.{from_dict-to_dict, says}
use harness_run.Control.Exec.{ExecResult, exited}
use harness_run.Worker.{
  Worker, Body, TurnControl, TurnRecord, new_worker, new_record, start_turn, already_accepted,
  token_other, page, finish,
}
use harness_run.Worker.Turns.{IsValid, Steps, stay, then_step, asked, finished, appended, apply}
use harness_run.Worker.Started.{Steps-IsValid, start_turn_again}
use harness_run.Worker.Paging.{begun, read, Reads-head, drain, drain_complete}
use harness_run.Worker.Steering.{send_all, send_all_once, ids}
use harness_run.Dispatch.{
  dispatch, Attempt, answered, failed, gone, Call, hand_over, owned, took, Outcome, Dispatch,
}
use harness_run.Dispatch.Exclusive.{dispatch-Decides, Decides}
use harness_run.Dispatch.Ownership.{interleave, run_out, accepted_on, interleave-released}
use harness_run.Dispatch.Settling.{hand_over_once, lost}

abbrev redirect : ControlMessage
redirect = record { op = interrupt; message = some "use the staging host"; message_id = "m1" }

abbrev nudge : ControlMessage
nudge = record { op = steer; message = some "go on"; message_id = "m2" }

from_dict-to_dict_example : from_dict "fresh" (to_dict redirect) ≡ parsed redirect
from_dict-to_dict_example =
    from_dict-to_dict "fresh" redirect (says interrupt "use the staging host" "m1" (λ e. cc) refl)

abbrev stop_body : Dict
stop_body = record { op = text "stop"; message = text "now"; message_id = none }

abbrev two_items : ControlledStream String
two_items = record {
  stream = "a" ∷ "b" ∷ [];
  closed = true;
  stream_task = unasked;
  has_control = true;
  control = nudge ∷ [];
  control_task = waiting;
}

abbrev first_turn : Body
first_turn = record {
  turn_id = some "t1";
  session_id = "s1";
  since = none;
  control = stop_body;
  model_token = token_other;
}

abbrev after_turn : Worker
after_turn = record { turns = new_record "t1" 5 ∷ []; threads = "t1" ∷ [] }

one_turn : Steps new_worker (start_turn 5 first_turn new_worker).1
one_turn = then_step (stay new_worker) (asked 5 first_turn new_worker)

new_worker-IsValid : IsValid new_worker
new_worker-IsValid = (refl, tt, omega arith)

Steps-IsValid_example : IsValid (start_turn 5 first_turn new_worker).1
Steps-IsValid_example = Steps-IsValid one_turn new_worker-IsValid

after_turn-IsValid : IsValid after_turn
unfolding new_record
after_turn-IsValid = (refl, (λ m. m, tt), omega arith)

start_turn_again_example :
    (at : ℕ) × (done : Bool) × (start_turn 8 first_turn after_turn
      ≡ (already_accepted "t1" at done, after_turn))
start_turn_again_example =
    start_turn_again 8 first_turn after_turn after_turn after_turn-IsValid (refl, refl) (inl refl)
      (stay after_turn)

send_all_once_example :
    let c : TurnControl = record { queue = []; seen = [] } in
    let ms = redirect ∷ nudge ∷ redirect ∷ [] in
    Distinct (ids (send_all ms c).queue)
    × ((s : String) → In s (ids (send_all ms c).queue) → In s (ids ms) ⊎ In s (ids c.queue))
    × ((s : String) → In s (ids ms) ⊎ In s (ids c.queue) → In s (ids (send_all ms c).queue))
send_all_once_example =
    send_all_once (redirect ∷ nudge ∷ redirect ∷ []) (record { queue = []; seen = [] }) (refl, tt)

abbrev two_lines : TurnRecord
two_lines = apply (appended "two") (apply (appended "one") (new_record "t1" 5))

Reads-head_example :
    let n = (page 0 two_lines).next in
    let got = (page 0 two_lines).events in
    ((rest : List String) × (two_lines.events ≡ got ++ rest) × (n ≡ length got))
    × ((page n two_lines).done ≡ true → got ++ (page n two_lines).events ≡ two_lines.events)
    × (n < length two_lines.events → n < (page n two_lines).next)
Reads-head_example = Reads-head two_lines _ _ (read (begun two_lines))

drain_complete_example :
    let r = apply (finished none 9) two_lines in drain (suc (length r.events)) 0 r ≡ some r.events
unfolding apply finish
drain_complete_example = drain_complete (apply (finished none 9) two_lines) refl

abbrev lost_answer : Attempt
lost_answer = record {
  abandoned_before = false;
  claimed = some ("pool/one", true);
  abandoned_claimed = false;
  calls = failed (some 3) false ∷ answered 7 ∷ [];
  abandoned_after = false;
  healthy = true;
}

dispatch-Decides_example :
    let (o, d) = dispatch first_turn (lost_answer ∷ []) (λ s. new_worker) in Decides "t1" o d
dispatch-Decides_example =
    dispatch-Decides first_turn (lost_answer ∷ []) (λ s. new_worker) (refl, refl)
      (λ t. (new_worker-IsValid, λ m. m))

lost_answer_took : (dispatch first_turn (lost_answer ∷ []) (λ s. new_worker)).0 ≡ took "pool/one"
unfolding dispatch hand_over harness_run.Dispatch.is_accepted start_turn new_record
lost_answer_took = refl

hand_over_once_example :
    let (h, w') = hand_over first_turn (lost (some 3 ∷ none ∷ []) 7) new_worker in
    (h ≡ owned) × (w'.threads ≡ "t1" ∷ [])
hand_over_once_example =
    hand_over_once (some 3 ∷ none ∷ []) 7 first_turn new_worker new_worker-IsValid (refl, refl) refl
      (λ m. m)

interleave-released_example :
    (run_out (interleave (true ∷ false ∷ []) (accepted_on "pool/one"))).released ≡ "pool/one" ∷ []
interleave-released_example = interleave-released (true ∷ false ∷ []) "pool/one"

abbrev timed_out : ExecResult
timed_out = record {
  stdout = "part";
  stderr = "timed out";
  returncode = exited 124;
  truncated = true;
  duration_ms = 9000;
}
