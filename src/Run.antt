-- ===== src/Run.antt =====
-- harness_run/runtime/_run.py: a turn's result, and `DrivenRun`, which drives a turn to it.
pub mod Results
pub mod Driving
pub mod Kept
pub mod Failing
pub mod Streaming
use mathlib.Core.List.{filter_map}
use harness_run.Base.{
  ℕ, String, ◌<>◌, ◌==◌, ◌||◌, Bool, true, false, Option, none, some, List, [], ◌∷◌, ◌++◌,
  if◌then◌else◌,
}
use harness_run.Base.Texts.{clip, has_text}
use harness_run.Events.{
  RunStatus, StopReason, AgentEvent, Raw, no_keys, RunResult, Resources, Scalar, Source, Kind,
  is_result,
}
use harness_run.Structured.{Decoder, Schema, parse_structured_output}

-- The fields of `AgentSpec` that a run reads.
pub record RunSpec (Json : Type 0) : Type 0 where
  pub output_schema : Option (Schema Json)
  pub checkpoint : Bool

abbrev pub or_empty : Option String → String
or_empty none = ""
or_empty (some s) = s

unfoldable pub stop_reason_for : Raw → Bool → StopReason
unfolding has_text
stop_reason_for raw checkpoint =
    let subtype = or_empty raw.subtype in
    if subtype == "interrupted"
    then StopReason.interrupted
    else if has_text "max_turn" subtype
    then StopReason.max_turns
    else if has_text "budget" subtype
    then StopReason.budget_exceeded
    else if raw.is_error
    then StopReason.error
    else if checkpoint
    then StopReason.needs_input
    else StopReason.end_turn

-- `int(raw[k])`, for a value that is an `int` and no `bool`
abbrev count_of : Option Scalar → Option ℕ
count_of (some (Scalar.int n)) = some n
count_of _ = none

-- `found or None`
abbrev some_resources : Option ℕ → Option ℕ → Option ℕ → Option Resources
some_resources none none none = none
some_resources peak limit cpu =
    some (record { memory_peak_bytes = peak; memory_limit_bytes = limit; cpu_usec = cpu })

unfoldable pub resources : Raw → Option Resources
resources raw =
    some_resources (count_of raw.memory_peak_bytes) (count_of raw.memory_limit_bytes)
      (count_of raw.cpu_usec)

-- `[dict(s) for s in found if isinstance(s, dict)]`
dicts : List Source → List (List (String × String))
dicts [] = []
dicts (Source.dict d ∷ found) = d ∷ dicts found
dicts (Source.other ∷ found) = dicts found

unfoldable pub skill_sources : Raw → Option (List (List (String × String)))
unfolding dicts
skill_sources raw = elim raw.skill_sources [ none ↦ none | some found ↦ some (dicts found) ]

abbrev pub raw_of : AgentEvent → Raw
raw_of e = elim e.raw [ none ↦ no_keys | some raw ↦ raw ]

-- `raw.get("session_id") or session_id`
abbrev pub or_text : Option String → String → String
or_text none s = s
or_text (some t) s = if t == "" then s else t

-- `raw.get("num_turns") or 0`
abbrev or_zero : Option ℕ → ℕ
or_zero none = 0
or_zero (some n) = n

module _ {Json : Type 0} (d : Decoder Json) where
  -- The first of the texts that parses.
  unfoldable pub recover : Schema Json → List String → Option Json
  recover schema [] = none
  recover schema (text ∷ texts) =
      let rest = recover schema texts in
      elim (parse_structured_output d (some text) schema) [ some v ↦ some v | none ↦ rest ]

  -- The structured output, and whether it was recovered from an earlier segment.
  unfoldable pub structured_of : Option (Schema Json) → AgentEvent → Option Json × Bool
  unfolding recover parse_structured_output
  structured_of none ev = (none, false)
  structured_of (some schema) ev = elim (parse_structured_output d (some ev.summary) schema) [
    | some v ↦ (some v, false)
    | none ↦ elim (recover schema (raw_of ev).segment_summaries) [
      | some v ↦ (some v, true)
      | none ↦ (none, false)
    ]
  ]

  unfoldable pub build_result : AgentEvent → String → RunSpec Json → RunResult Json × StopReason
  unfolding structured_of stop_reason_for resources skill_sources
  build_result result_ev session_id spec =
      let raw = raw_of result_ev in
      let (structured, recovered) = structured_of spec.output_schema result_ev in
      (
        record {
          text = some result_ev.summary;
          structured_output = structured;
          structured_output_recovered = recovered;
          is_error = raw.is_error;
          num_turns = or_zero raw.num_turns;
          cost_usd = result_ev.cost_usd;
          usage = result_ev.usage;
          session_id = some (or_text raw.session_id session_id);
          artifacts = [];
          warning = none;
          resources = resources raw;
          skill_sources = skill_sources raw;
        },
        stop_reason_for raw spec.checkpoint,
      )

-- What the queue between the driver and its reader holds.
pub data Item : Type 0 where
  event : AgentEvent → Item
  sentinel : Item

-- How the event source ends: it is exhausted, it raises, or the driver task is cancelled.
pub data Ending : Type 0 where
  exhausted : Ending
  raised : String → Ending
  cancelled : Ending

pub record DrivenRun (Json : Type 0) : Type 0 where
  pub session_id : String
  pub spec : RunSpec Json
  -- the message of the exception that the owner's callback raises on an event, if it raises
  pub on_event : AgentEvent → Option String
  pub cancel_note : Option String
  pub cancelled : Bool
  pub queue : List Item
  pub status : RunStatus
  pub result : Option (RunResult Json)
  pub stop_reason : Option StopReason
  -- the calls of `on_complete`, oldest first
  pub completions : List (RunResult Json × StopReason)

-- `__init__`
abbrev pub new_run :
    {Json : Type 0} → String → RunSpec Json → (AgentEvent → Option String) → DrivenRun Json
new_run session_id spec on_event = record {
  session_id = session_id;
  spec = spec;
  on_event = on_event;
  cancel_note = none;
  cancelled = false;
  queue = [];
  status = RunStatus.pending;
  result = none;
  stop_reason = none;
  completions = [];
}

-- `RunResult(text=..., is_error=True, session_id=..., warning=...)`
abbrev pub error_result : {Json : Type 0} → Option String → String → Option String → RunResult Json
error_result text session_id warning = record {
  text = text;
  structured_output = none;
  structured_output_recovered = false;
  is_error = true;
  num_turns = 0;
  cost_usd = none;
  usage = none;
  session_id = some session_id;
  artifacts = [];
  warning = warning;
  resources = none;
  skill_sources = none;
}

-- The status event of a source that raised.
unfoldable pub abnormal_event : Bool → String → AgentEvent
unfolding clip
abnormal_event late message = record {
  kind = Kind.status;
  summary =
      if late
      then "harness exited abnormally after the terminal result (result kept): " <> clip 200 message
      else "run failed: " <> clip 200 message;
  raw = some (record no_keys { event = some (if late then "late_harness_error" else "error") });
  cost_usd = none;
  usage = none;
}

abbrev pub put : {Json : Type 0} → Item → DrivenRun Json → DrivenRun Json
put item run = record run { queue = run.queue ++ item ∷ [] }

module _ {Json : Type 0} (d : Decoder Json) where
  -- A terminal result that the source gave is kept, whatever happened afterwards. The error
  -- `"interrupted"` is that of a cancelled task.
  unfoldable pub finalize : Option AgentEvent → Option String → DrivenRun Json → DrivenRun Json
  unfolding build_result clip
  finalize (some result_ev) error run =
      let (built, reason) = build_result d result_ev run.session_id run.spec in
      let kept : RunResult Json = elim error [
        | none ↦ built
        | some message ↦ if message == "interrupted" then built else record built {
          warning = some ("harness exited abnormally after the result: " <> clip 500 message);
        }
      ] in
      record run {
        result = some kept;
        stop_reason = some reason;
        status = RunStatus.idle;
        completions = run.completions ++ (kept, reason) ∷ [];
      }
  finalize none error run =
      let made : RunResult Json = elim error [
        | none ↦ error_result none run.session_id none
        | some message ↦
            if message == "interrupted"
            then error_result none run.session_id run.cancel_note
            else error_result (some ("run failed: " <> message)) run.session_id none
      ] in
      record run {
        result = some made;
        stop_reason = some StopReason.error;
        status = RunStatus.idle;
        completions = run.completions ++ (made, StopReason.error) ∷ [];
      }

  -- The part of `_drive` behind the loop.
  unfoldable pub finish : Option AgentEvent → Ending → DrivenRun Json → DrivenRun Json
  unfolding finalize abnormal_event
  finish result_ev exhausted run = put sentinel (finalize result_ev none run)
  finish result_ev (raised message) run =
      let late : Bool = elim result_ev [ none ↦ false | some _ ↦ true ] in
      put sentinel
        (finalize result_ev (some message) (put (event (abnormal_event late message)) run))
  finish result_ev Ending.cancelled run =
      put sentinel (finalize result_ev (some "interrupted") (record run { cancelled = true }))

  -- `if event.kind == "result" and result_ev is None: result_ev = event`
  abbrev pub first_result : Option AgentEvent → AgentEvent → Option AgentEvent
  first_result (some r) e = some r
  first_result none e = if is_result e then some e else none

  -- The loop of `_drive`: a callback that raises ends it like a source that raises.
  unfoldable pub drive_loop :
      List AgentEvent → Ending → Option AgentEvent → DrivenRun Json → DrivenRun Json
  drive_loop [] ending result_ev run = finish result_ev ending run
  drive_loop (e ∷ es) ending result_ev run = elim (run.on_event e) [
    | none ↦ drive_loop es ending (first_result result_ev e) (put (event e) run)
    | some message ↦ finish (first_result result_ev e) (raised message) run
  ]

  unfoldable pub drive : List AgentEvent → Ending → DrivenRun Json → DrivenRun Json
  unfolding drive_loop finish
  drive es ending run = drive_loop es ending none (record run { status = RunStatus.running })

-- `cancel(note)`: the note is kept; the task, if it still runs, ends as `Ending.cancelled`.
abbrev pub cancel : {Json : Type 0} → Option String → DrivenRun Json → DrivenRun Json
cancel note run = record run { cancel_note = note }

-- `done`
unfoldable pub done : {Json : Type 0} → DrivenRun Json → Bool
done run = elim run.status [ RunStatus.idle ↦ true | RunStatus.terminated ↦ true | _ ↦ false ]

-- `__aiter__`: the events up to the first sentinel.
unfoldable pub iterate : List Item → List AgentEvent
iterate [] = []
iterate (event e ∷ queue) = e ∷ iterate queue
iterate (sentinel ∷ queue) = []
