-- ===== src/Control.antt =====
-- harness_run/control.py: operator messages into a running turn, and the reader that joins the
-- harness stream with their channel.
pub mod Messages
pub mod Joining
pub mod Exec
use harness_run.Base.{
  ℕ, String, ◌==◌, Bool, true, false, Option, none, some, List, [], ◌∷◌, ◌++◌, if◌then◌else◌,
  length, leb,
}
use harness_run.Base.Texts.{clip, size}
use harness_run.Events.{AgentEvent, Kind, no_keys}

pub data ControlOp : Type 0 where
  steer interrupt stop : ControlOp

pub record ControlMessage : Type 0 where
  pub op : ControlOp
  pub message : Option String
  pub message_id : String

-- A value of a request body: a text, or something else.
pub data Value : Type 0 where
  text : String → Value
  null : Value
  other : Value

-- The keys of a body that `from_dict` reads; a missing key reads as `null`.
pub record Dict : Type 0 where
  pub op : Value
  pub message : Value
  pub message_id : Option String

-- The op's word, as `to_dict` writes it.
abbrev pub op_text : ControlOp → String
op_text steer = "steer"
op_text interrupt = "interrupt"
op_text stop = "stop"

abbrev pub value_of : Option String → Value
value_of none = null
value_of (some s) = text s

unfoldable pub to_dict : ControlMessage → Dict
to_dict m = record {
  op = text (op_text m.op);
  message = value_of m.message;
  message_id = some m.message_id;
}

pub data Parsed : Type 0 where
  parsed : ControlMessage → Parsed
  unknown_op : Parsed
  needs_message : Parsed

abbrev pub op_of : Value → Option ControlOp
op_of (text s) =
    if s == "steer"
    then some steer
    else if s == "interrupt"
    then some interrupt
    else if s == "stop"
    then some stop
    else none
op_of _ = none

-- The id of the body, or a fresh one for a body without it.
abbrev pub id_of : String → Option String → String
id_of fresh none = fresh
id_of fresh (some s) = if s == "" then fresh else s

-- A steer or an interrupt needs a text; a stop drops what it has.
abbrev pub built : ControlOp → Value → String → Parsed
built stop v id = parsed (record { op = stop; message = none; message_id = id })
built op (text s) id = parsed (record { op = op; message = some s; message_id = id })
built op v id = needs_message

-- `fresh` is the `uuid4` that is drawn where the body has no id.
unfoldable pub from_dict : String → Dict → Parsed
from_dict fresh d = elim (op_of d.op) [
  | none ↦ unknown_op
  | some op ↦ built op d.message (id_of fresh d.message_id)
]

abbrev pub or_empty : Option String → String
or_empty none = ""
or_empty (some s) = s

abbrev pub is_interrupt : ControlOp → Bool
is_interrupt interrupt = true
is_interrupt _ = false

unfoldable pub user_event : ControlMessage → AgentEvent
user_event m = record {
  kind = Kind.user;
  summary = or_empty m.message;
  raw = some (record no_keys {
    event = some "user_message";
    message_id = some m.message_id;
    interrupt = is_interrupt m.op;
  });
  cost_usd = none;
  usage = none;
}

-- `_cap`: the head of a text, and whether it was cut.
unfoldable pub cap : ℕ → String → String × Bool
unfolding clip size
cap limit s = if leb (size s) limit then (s, false) else (clip limit s, true)

-- What is pending on one side of a `ControlledStream`: nothing has been asked yet, a read is
-- waiting, or a read is done.
pub data Pending (A : Type 0) : Type 0 where
  unasked : Pending A
  waiting : Pending A
  ready : A → Pending A

-- One item of the harness stream, or its end.
pub data Read (A : Type 0) : Type 0 where
  item : A → Read A
  stream_end : Read A

-- The stream's and the channel's items that no read has taken yet, and the two pending reads.
-- `closed` says that the stream has no items beyond those.
pub record ControlledStream (A : Type 0) : Type 0 where
  pub stream : List A
  pub closed : Bool
  pub stream_task : Pending (Read A)
  pub has_control : Bool
  pub control : List ControlMessage
  pub control_task : Pending ControlMessage

pub data Arrival (A : Type 0) : Type 0 where
  message : A → Arrival A
  control_message : ControlMessage → Arrival A
  ended : Arrival A
  timeout : Arrival A

-- A pending read of the channel takes the next message, if there is one.
abbrev pub pull_control :
    List ControlMessage → Pending ControlMessage → List ControlMessage × Pending ControlMessage
pull_control q (ready m) = (q, ready m)
pull_control (m ∷ q) _ = (q, ready m)
pull_control [] _ = ([], waiting)

module _ {A : Type 0} where
  -- A pending read of the stream takes the next item, if there is one.
  abbrev pub pull_stream : List A → Bool → Pending (Read A) → List A × Pending (Read A)
  pull_stream s closed (ready r) = (s, ready r)
  pull_stream (a ∷ s) closed _ = (s, ready (item a))
  pull_stream [] true _ = ([], ready stream_end)
  pull_stream [] false _ = ([], waiting)

  -- `_tasks` and the wait: reads that are not there are started, and take what has arrived.
  unfoldable pub poll : ControlledStream A → ControlledStream A
  poll c =
      let (s, st) = pull_stream c.stream c.closed c.stream_task in
      let (q, ct) = pull_control c.control c.control_task in
      if c.has_control
      then record c { stream = s; stream_task = st; control = q; control_task = ct }
      else record c { stream = s; stream_task = st }

  -- A finished control read goes first; a timeout leaves both reads pending.
  unfoldable pub deliver : ControlledStream A → Arrival A × ControlledStream A
  deliver c = elim c.control_task [
    | ready m ↦ (control_message m, record c { control_task = unasked })
    | _ ↦ elim c.stream_task [
      | ready r ↦ elim r [
        | item a ↦ (message a, record c { stream_task = unasked })
        | stream_end ↦ (ended, record c { stream_task = unasked })
      ]
      | _ ↦ (timeout, c)
    ]
  ]

  unfoldable pub next : ControlledStream A → Arrival A × ControlledStream A
  unfolding poll deliver
  next c = deliver (poll c)

  -- `replace_stream`: the pending read goes with the old stream.
  unfoldable pub replace_stream : List A → Bool → ControlledStream A → ControlledStream A
  replace_stream s closed c = record c { stream = s; closed = closed; stream_task = unasked }

  -- `close`
  unfoldable pub close : ControlledStream A → ControlledStream A
  close c = record c { stream_task = unasked; control_task = unasked }
