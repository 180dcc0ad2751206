-- ===== src/Worker.antt =====
-- harness_run/runtime/sandbox/worker.py: the turns that a sandbox's worker keeps, and its
-- endpoints.
pub mod Turns
pub mod Started
pub mod Paging
pub mod Steering
pub mod Running
use harness_run.Base.{
  ℕ, zero, suc, ◌+◌, ◌-◌, String, ◌==◌, Bool, true, false, not, Option, none, some, List, [], ◌∷◌,
  ◌++◌, map, if◌then◌else◌, length, leb, ltb, any, keep, head?, append_one,
}
use harness_run.Base.Texts.{size}
use harness_run.Control.{ControlMessage, Dict, from_dict, Parsed, parsed, unknown_op, needs_message}

-- A mirror line, as `json.dumps` writes it.
abbrev pub Line : Type 0
Line = String

-- `_TurnControl`: `queue` is every message that was put, in order.
pub record TurnControl : Type 0 where
  pub queue : List ControlMessage
  pub seen : List String

pub record ModelToken : Type 0 where
  pub access_token : String
  pub expires_at : Option String

-- The condition variable and the lock are the atomicity of the operations below.
pub record TurnRecord : Type 0 where
  pub turn_id : String
  pub events : List Line
  pub done : Bool
  pub error : Option String
  pub started_at : ℕ
  pub finished_at : Option ℕ
  pub control : Option TurnControl
  pub model_token : Option ModelToken
  pub workspace : Option String

-- `_turns` in insertion order. `threads` has the turns whose thread was started, in order.
pub record Worker : Type 0 where
  pub turns : List TurnRecord
  pub threads : List String

abbrev pub new_worker : Worker
new_worker = record { turns = []; threads = [] }

-- `send_threadsafe`
unfoldable pub send : ControlMessage → TurnControl → Bool × TurnControl
send m c =
    if any (λ s. s == m.message_id) c.seen
    then (false, c)
    else (true, record { queue = append_one c.queue m; seen = append_one c.seen m.message_id })

unfoldable pub new_record : String → ℕ → TurnRecord
new_record id now = record {
  turn_id = id;
  events = [];
  done = false;
  error = none;
  started_at = now;
  finished_at = none;
  control = none;
  model_token = none;
  workspace = none;
}

-- `TurnRecord.append`
unfoldable pub append : Line → TurnRecord → TurnRecord
append line r = record r { events = append_one r.events line }

-- `TurnRecord.finish`
unfoldable pub finish : Option String → ℕ → TurnRecord → TurnRecord
finish error now r = record r { done = true; error = error; finished_at = some now }

-- `self._turns.get(turn_id)`
abbrev pub get : String → List TurnRecord → Option TurnRecord
get id [] = none
get id (r ∷ rs) = let rest = get id rs in if r.turn_id == id then some r else rest

-- The turn's record, changed in place.
abbrev pub update : String → (TurnRecord → TurnRecord) → List TurnRecord → List TurnRecord
update id f [] = []
update id f (r ∷ rs) = let rest = update id f rs in if r.turn_id == id then f r ∷ rs else r ∷ rest

abbrev pub running : List TurnRecord → List String
running rs = map (λ r. r.turn_id) (keep (λ r. not r.done) rs)

-- The `model_token` of a request: a text, a dict with its two keys (a value that is no text is
-- `none`), or something else.
pub data TokenValue : Type 0 where
  token_text : String → TokenValue
  token_dict : Option String → Option String → TokenValue
  token_other : TokenValue

abbrev pub nonempty : Option String → Option String
nonempty none = none
nonempty (some s) = if s == "" then none else some s

abbrev pub token_of : Option String → Option String → Option ModelToken
token_of none e = none
token_of (some s) e = some (record { access_token = s; expires_at = e })

-- `_token_record`
unfoldable pub token_record : TokenValue → Option ModelToken
token_record (token_text s) = token_of (nonempty (some s)) none
token_record (token_dict a e) = token_of (nonempty a) (nonempty e)
token_record token_other = none

-- What the endpoints read of a request. A missing or a negative `since` is `none`.
pub record Body : Type 0 where
  pub turn_id : Option String
  pub session_id : String
  pub since : Option ℕ
  pub control : Dict
  pub model_token : TokenValue

pub data TurnAnswer : Type 0 where
  ids_required : TurnAnswer
  already_accepted : String → ℕ → Bool → TurnAnswer
  busy : List String → TurnAnswer
  accepted : String → ℕ → TurnAnswer

abbrev pub or_blank : Option String → String
or_blank none = ""
or_blank (some s) = s

-- `str(body.get("turn_id"))`
abbrev pub turn_key : Option String → String
turn_key none = "None"
turn_key (some s) = s

-- A new turn, given the turns that run: its record, and its thread.
abbrev pub admit : ℕ → String → List String → Worker → TurnAnswer × Worker
admit now id (t ∷ ts) w = (busy (t ∷ ts), w)
admit now id [] w = (
  accepted id now,
  record { turns = append_one w.turns (new_record id now); threads = append_one w.threads id },
)

abbrev pub take_turn : ℕ → String → Worker → TurnAnswer × Worker
take_turn now id w = elim (get id w.turns) [
  | some r ↦ (already_accepted id r.started_at r.done, w)
  | none ↦ admit now id (running w.turns) w
]

unfoldable pub start_turn : ℕ → Body → Worker → TurnAnswer × Worker
start_turn now body w =
    let id = or_blank body.turn_id in
    if id == ""
    then (ids_required, w)
    else if body.session_id == ""
    then (ids_required, w)
    else take_turn now id w

pub record Page : Type 0 where
  pub events : List Line
  pub next : ℕ
  pub done : Bool
  pub error : Option String
  pub started_at : ℕ
  pub finished_at : Option ℕ

abbrev pub drop : ℕ → List Line → List Line
drop zero ls = ls
drop (suc n) [] = []
drop (suc n) (l ∷ ls) = drop n ls

-- `EVENTS_PAGE_BYTES`
abbrev pub events_page_bytes : ℕ
events_page_bytes = 1000000

-- The lines that still fit behind `used` bytes of a page that has a line.
abbrev pub fitting : ℕ → List Line → List Line
fitting used [] = []
fitting used (l ∷ ls) =
    let rest = fitting (used + size l) ls in
    if ltb events_page_bytes (used + size l) then [] else l ∷ rest

-- The first line always goes with its page.
abbrev pub page_of : List Line → List Line
page_of [] = []
page_of (l ∷ ls) = l ∷ fitting (size l) ls

-- The page that `events` serves from the record, as it is when the wait ends.
unfoldable pub page : ℕ → TurnRecord → Page
page since r =
    let lines = page_of (drop since r.events) in
    let nxt = since + length lines in
    record {
      events = lines;
      next = nxt;
      done = if r.done then leb (length r.events) nxt else false;
      error = r.error;
      started_at = r.started_at;
      finished_at = r.finished_at;
    }

abbrev pub or_start : Option ℕ → ℕ
or_start none = 0
or_start (some n) = n

unfoldable pub events : Body → Worker → Option Page
events body w = elim (get (turn_key body.turn_id) w.turns) [
  | none ↦ none
  | some r ↦ some (page (or_start body.since) r)
]

pub data ControlAnswer : Type 0 where
  unknown_turn : ControlAnswer
  bad_message : ControlAnswer
  already_finished : ControlAnswer
  not_ready : ControlAnswer
  delivered : Bool → String → ControlAnswer

abbrev pub set_control : TurnControl → TurnRecord → TurnRecord
set_control c r = record r { control = some c }

abbrev pub deliver : ControlMessage → TurnRecord → Worker → ControlAnswer × Worker
deliver m r w = if r.done then (already_finished, w) else elim r.control [
  | none ↦ (not_ready, w)
  | some c ↦
      let (b, c') = send m c in
      (delivered b m.message_id, record w { turns = update r.turn_id (set_control c') w.turns })
]

unfoldable pub control : String → Body → Worker → ControlAnswer × Worker
control fresh body w = elim (get (turn_key body.turn_id) w.turns) [
  | none ↦ (unknown_turn, w)
  | some r ↦ elim (from_dict fresh body.control) [ parsed m ↦ deliver m r w | _ ↦ (bad_message, w) ]
]

pub data TokenAnswer : Type 0 where
  no_such_turn : TokenAnswer
  token_required : TokenAnswer
  no_model_token : TokenAnswer
  renewed : TokenAnswer

abbrev pub set_token : ModelToken → TurnRecord → TurnRecord
set_token t r = record r { model_token = some t }

unfoldable pub token : Body → Worker → TokenAnswer × Worker
token body w = elim (get (turn_key body.turn_id) w.turns) [
  | none ↦ (no_such_turn, w)
  | some r ↦ elim (token_record body.model_token) [
    | none ↦ (token_required, w)
    | some t ↦ elim r.model_token [
      | none ↦ (no_model_token, w)
      | some _ ↦ (renewed, record w { turns = update r.turn_id (set_token t) w.turns })
    ]
  ]
]

-- `running_turn` of `health`, and the record whose token `served_model_token` serves.
unfoldable pub running_turn : Worker → Option String
running_turn w = head? (running w.turns)

unfoldable pub served_model_token : Worker → Option ModelToken
served_model_token w = elim (head? (keep (λ r. not r.done) w.turns)) [
  | none ↦ none
  | some r ↦ r.model_token
]

-- `handle`: which endpoint a path is for.
pub data Endpoint : Type 0 where
  health turn events_page steering renewal command : Endpoint

unfoldable pub handle : String → Option Endpoint
handle path =
    if path == "/health"
    then some health
    else if path == "/turn"
    then some turn
    else if path == "/events"
    then some events_page
    else if path == "/control"
    then some steering
    else if path == "/token"
    then some renewal
    else if path == "/exec"
    then some command
    else none
