-- ===== src/Session.antt =====
-- harness_run/runtime/sandbox/backend.py, `SandboxSession`: the control messages that wait for a
-- turn's worker.
pub mod Fifo
pub mod Dropped
use harness_run.Base.{
  Bool, true, false, Option, none, some, List, [], ◌∷◌, if◌then◌else◌, append_one,
}
use harness_run.Control.{ControlMessage}

-- The thread of `_flush_control`, between its accesses to the queue: none is running, it is at
-- the top of its loop, it posts a message, or it is about to remove the one that it posted.
pub data Flusher : Type 0 where
  no_thread looking popping : Flusher
  posting : ControlMessage → Flusher

-- The session's fields that `_control_lock` guards, whether `_sandbox` is set, the message that
-- the caller of `send` is posting, and the messages that went to `_post_control_now`, in order.
pub record Inbox : Type 0 where
  pub control_ready : Bool
  pub has_sandbox : Bool
  pub flushing : Bool
  pub pending_control : List ControlMessage
  pub caller : Option ControlMessage
  pub flusher : Flusher
  pub posted : List ControlMessage

-- What `_submit` leaves for a new turn.
abbrev pub new_turn : Inbox
new_turn = record {
  control_ready = false;
  has_sandbox = false;
  flushing = false;
  pending_control = [];
  caller = none;
  flusher = no_thread;
  posted = [];
}

-- `_post_control`, up to the post.
unfoldable pub post_control : ControlMessage → Inbox → Inbox
post_control m b =
    let queue = record b { pending_control = append_one b.pending_control m } in
    let go = record b { caller = some m } in
    if b.control_ready
    then if b.has_sandbox then if b.flushing then queue else go else queue
    else queue

-- The caller's `_post_control_now`.
unfoldable pub post_now : Inbox → Inbox
post_now b = elim b.caller [
  | none ↦ b
  | some m ↦ record b { caller = none; posted = append_one b.posted m }
]

-- The dispatch publishes the turn's sandbox.
unfoldable pub publish_sandbox : Inbox → Inbox
publish_sandbox b = record b { has_sandbox = true }

-- `_observe` of the worker's `control_ready`, with the thread that it starts.
unfoldable pub observe_ready : Inbox → Inbox
observe_ready b = elim b.pending_control [
  | [] ↦ record b { control_ready = true }
  | m ∷ ms ↦
      if b.flushing
      then record b { control_ready = true }
      else record b { control_ready = true; flushing = true; flusher = looking }
]

abbrev pub look : List ControlMessage → Inbox → Inbox
look [] b = record b { flushing = false; flusher = no_thread }
look (m ∷ ms) b = record b { flusher = posting m }

-- `pop(0)`: on an empty queue it raises, which ends the thread.
abbrev pub pop : List ControlMessage → Inbox → Inbox
pop [] b = record b { flusher = no_thread }
pop (m ∷ ms) b = record b { pending_control = ms; flusher = looking }

-- The next step of `_flush_control`.
unfoldable pub flush_control : Inbox → Inbox
flush_control b = elim b.flusher [
  | no_thread ↦ b
  | looking ↦ look b.pending_control b
  | posting m ↦ record b { flusher = popping; posted = append_one b.posted m }
  | popping ↦ pop b.pending_control b
]

-- `_drop_pending_control`
unfoldable pub drop_pending_control : Inbox → Inbox
drop_pending_control b = record b { flushing = false; pending_control = [] }

-- `_submit` of the session's next turn, for the fields here.
unfoldable pub submit : Inbox → Inbox
unfolding drop_pending_control
submit b = drop_pending_control (record b { control_ready = false; has_sandbox = false })
