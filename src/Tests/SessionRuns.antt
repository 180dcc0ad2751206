-- ===== src/Tests/SessionRuns.antt =====
-- A session's inbox at concrete messages.
use harness_run.Base.{◌≡◌, refl, true, none, some, [], ◌∷◌, ◌++◌}
use harness_run.Control.{ControlMessage, steer, interrupt}
use harness_run.Session.{
  Inbox, post_control, publish_sandbox, observe_ready, flush_control, posting, looking, submit,
  drop_pending_control,
}
use harness_run.Session.Fifo.{
  Turn, begun, sent, published, readied, flushed, Turn-fifo, outstanding, flush_steps, rounds,
  settled,
}
use harness_run.Session.Dropped.{flush_control-submit_loses}

abbrev first : ControlMessage
first = record { op = steer; message = some "use staging"; message_id = "m1" }

abbrev second : ControlMessage
second = record { op = interrupt; message = some "stop that"; message_id = "m2" }

-- Two messages before the worker is ready; then the flusher has begun to post the first.
abbrev in_flush : Inbox
in_flush = record {
  control_ready = true;
  has_sandbox = true;
  flushing = true;
  pending_control = first ∷ second ∷ [];
  caller = none;
  flusher = posting first;
  posted = [];
}

in_flush-Turn : Turn (first ∷ second ∷ []) in_flush
unfolding post_control publish_sandbox observe_ready flush_control
in_flush-Turn = flushed (readied (published (sent second (sent first begun refl) refl)) refl)

Turn-fifo_example :
    let b' = settled in_flush in
    (in_flush.posted ++ outstanding in_flush ≡ first ∷ second ∷ [])
    × ((flush_steps (rounds 0 b'.pending_control) b').posted ≡ first ∷ second ∷ [])
Turn-fifo_example = Turn-fifo (first ∷ second ∷ []) in_flush in_flush-Turn

flush_control-submit_loses_example :
    let ended = drop_pending_control (record in_flush { flusher = posting first }) in
    let after = flush_control (flush_control (post_control second (submit ended))) in
    (after.pending_control ≡ []) × (after.posted ≡ first ∷ []) × (after.flusher ≡ looking)
flush_control-submit_loses_example = flush_control-submit_loses in_flush first second
