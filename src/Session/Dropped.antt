-- ===== src/Session/Dropped.antt =====
-- A queue that is dropped while its flusher posts: the flusher then removes a message of the next
-- turn, which no one has posted.
use harness_run.Base.{◌≡◌, refl, [], ◌∷◌, ◌++◌}
use harness_run.Control.{ControlMessage}
use harness_run.Session.{
  Inbox, posting, looking, flush_control, submit, post_control, drop_pending_control,
}

-- Whatever message the flusher is posting when its turn ends, and whatever is the first message
-- that is sent into the next turn before its worker is ready: once the flusher has come back to
-- the top of its loop, that first message is no longer queued, and only the old one was posted.
pub flush_control-submit_loses :
    (b : Inbox) (old new : ControlMessage)
    → let ended = drop_pending_control (record b { flusher = posting old }) in
      let after = flush_control (flush_control (post_control new (submit ended))) in
      (after.pending_control ≡ [])
      × (after.posted ≡ b.posted ++ (old ∷ []))
      × (after.flusher ≡ looking)
unfolding flush_control submit post_control
flush_control-submit_loses b old new = (refl, refl, refl)
