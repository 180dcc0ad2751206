-- ===== src/Worker/Running.antt =====
-- harness_run/runtime/sandbox/worker.py, `Worker.run_turn`: what a turn's thread writes to the
-- record and to the mirror.
pub mod Surfaced
pub mod Ended
mod Log
pub mod Logged
pub mod Counted
pub use Log.*
use harness_run.Base.{
  ℕ, String, ◌<>◌, Bool, true, false, ◌||◌, Option, none, some, List, [], ◌∷◌, if◌then◌else◌,
  append_one, ltb, ◌⊎◌, inl, inr,
}
use harness_run.Base.Texts.{clip, size}
use harness_run.Events.{
  AgentEvent, Raw, no_keys, Kind, is_result, MirroredBy, Scalar, int, Source, Resources,
}

-- `turn_id` and the sandbox; whether the turn has an events URI; what the sampler, if there is
-- one, has observed when it enriches an event.
module _ (turn_id : String) (sandbox : Option String) (streamed : Bool)
    (observed : AgentEvent → Option Resources) where
  abbrev pub identify : AgentEvent → AgentEvent
  identify e = record e {
    raw = some (record (raw_of e) { turn_id = some turn_id; worker = sandbox });
  }

  unfoldable pub enriched : Option (List Source) → AgentEvent → AgentEvent
  unfolding enrich
  enriched sources e =
      if is_result e then record e { raw = some (enrich (observed e) sources (raw_of e)) } else e

  abbrev pub status : String → String → AgentEvent
  status event summary = record {
    kind = Kind.status;
    summary = summary;
    raw = some (record no_keys { event = some event });
    cost_usd = none;
    usage = none;
  }

  abbrev pub sample_event : String → AgentEvent
  sample_event summary = identify (status "resource_sample" summary)

  abbrev pub pressure_event : String → AgentEvent
  pressure_event summary = identify (status "memory_pressure" summary)

  -- The record after what the sampler does.
  unfoldable pub acts_live : List Sampled → List AgentEvent → List AgentEvent
  acts_live [] es = es
  acts_live (pressed s ∷ acts) es = acts_live acts (append_one es (line (pressure_event s)))
  acts_live (sampled s ∷ acts) es = acts_live acts es
  acts_live (pressure_mirrored s ∷ acts) es = acts_live acts es

  abbrev pub enqueue : AgentEvent → List AgentEvent → List AgentEvent
  enqueue e es = if streamed then append_one es e else es

  -- The mirror's queue after it.
  unfoldable pub acts_queued : List Sampled → List AgentEvent → List AgentEvent
  acts_queued [] es = es
  acts_queued (pressed s ∷ acts) es = acts_queued acts es
  acts_queued (sampled s ∷ acts) es = acts_queued acts (enqueue (sample_event s) es)
  acts_queued (pressure_mirrored s ∷ acts) es = acts_queued acts (enqueue (pressure_event s) es)

  -- What the sampler does before the thread goes on.
  abbrev pub pause : Running → Running
  pause t = record t {
    live = acts_live (acts_of t.sampler) t.live;
    queued = acts_queued (acts_of t.sampler) t.queued;
    sampler = later_acts t.sampler;
  }

  -- A terminal result: first the mirror, then the record, with a flag that says whether the
  -- write succeeded.
  abbrev pub surface_result : AgentEvent → Running → Running
  surface_result e t =
      let written = flag MirroredBy.worker e in
      let a = pause t in
      let ok = answer_of a.answers in
      let b : Running = record a {
        queued = append_one a.queued written;
        answers = later a.answers;
        acked = if ok then append_one a.acked written else a.acked;
      } in
      let c = pause b in
      record c {
        live = append_one c.live (line (if ok then written else flag MirroredBy.failed e));
      }

  abbrev pub surface_plain : AgentEvent → Running → Running
  surface_plain e t =
      let a = pause t in
      let b : Running = record a { live = append_one a.live (line e) } in
      let c = pause b in record c { queued = enqueue e c.queued }

  unfoldable pub surface : AgentEvent → Running → Running
  unfolding acts_live acts_queued
  surface e t =
      let i = identify e in
      if is_result e
      then if streamed then surface_result i t else surface_plain i t
      else surface_plain i t

  abbrev pub error_result : String → String → String → AgentEvent
  error_result event session_id summary = record {
    kind = Kind.result;
    summary = summary;
    raw = some (record no_keys {
      event = some event;
      subtype = some "error";
      is_error = true;
      session_id = some session_id;
    });
    cost_usd = none;
    usage = none;
  }

  -- The harness's events.
  unfoldable pub follow : Option (List Source) → List AgentEvent → Running → Running
  unfolding surface enriched
  follow sources [] t = t
  follow sources (e ∷ es) t =
      follow sources es
        (surface (enriched sources e) (record t { saw_result = t.saw_result || is_result e }))

  abbrev pub late_error : String → AgentEvent
  late_error exc =
      status "late_harness_error"
        ("harness exited abnormally after the terminal result (result kept): " <> clip 300 exc)

  unfoldable pub harness_error : Option (List Source) → String → String → AgentEvent
  unfolding enriched
  harness_error sources session_id exc =
      enriched sources
        (error_result "harness_error" session_id ("agent run failed: " <> clip 300 exc))

  -- The `except` of the turn.
  unfoldable pub fail : Option (List Source) → String → String → Running → Running
  unfolding surface harness_error
  fail sources session_id exc t =
      if t.saw_result
      then surface (late_error exc) t
      else surface (harness_error sources session_id exc) t

  unfoldable pub end_with : Option (List Source) → String → HarnessEnd → Running → Running
  unfolding fail
  end_with sources session_id finished t = t
  end_with sources session_id (raised exc) t = fail sources session_id exc t

  abbrev pub prepared : String → Raw → AgentEvent
  prepared summary raw = record {
    kind = Kind.status;
    summary = summary;
    raw = some raw;
    cost_usd = none;
    usage = none;
  }

  -- The turn from the preparation of the workspace on, which raises or gives its summary and
  -- what else it tells.
  unfoldable pub drive :
      String → String ⊎ (String × Raw) → List AgentEvent → HarnessEnd → Running → Running
  unfolding fail follow end_with surface
  drive session_id (inl exc) es end t = fail none session_id exc t
  drive session_id (inr (summary, raw)) es end t =
      end_with raw.skill_sources session_id end
        (follow raw.skill_sources es (surface (prepared summary raw) t))

  -- `str` of a Boolean.
  abbrev pub shown : Bool → String
  shown b = if b then "True" else "False"

  abbrev pub started_summary : Option String → String
  started_summary none = "turn started"
  started_summary (some s) = "turn started on sandbox " <> s

  abbrev pub turn_started : AgentEvent
  turn_started = status "turn_started" (started_summary sandbox)

  abbrev pub effective_spec : Bool → Bool → AgentEvent
  effective_spec by_session by_turn = status "effective_spec" (
      "effective spec resolved (session config: "
      <> shown by_session
      <> ", turn config: "
      <> shown by_turn
      <> ")")

  abbrev pub control_ready : AgentEvent
  control_ready = status "control_ready" "control channel ready (steer / interrupt accepted)"

  -- The status events before the preparation, for a turn with or without a session's config and
  -- a config of its own.
  unfoldable pub announce : Bool → Bool → Running → Running
  unfolding surface
  announce by_session by_turn t =
      let t1 = surface turn_started t in
      let t2 =
        if by_session || by_turn then surface (effective_spec by_session by_turn) t1 else t1 in
      surface control_ready t2

  abbrev pub new_running : List Bool → List (List Sampled) → Running
  new_running answers sampler = record {
    live = [];
    queued = [];
    answers = answers;
    sampler = sampler;
    acked = [];
    saw_result = false;
  }

  abbrev pub config_error : String → String → AgentEvent
  config_error session_id error =
      error_result "config_error" session_id (clip 300 error <> "; failing the turn")

  -- `run_turn`: a config that the worker cannot honour fails the turn, before the sampler is
  -- started; what else raises before the turn's `try` leaves the record as it is. The sampler acts
  -- once more before it is stopped.
  unfoldable pub run_turn :
      String
      → Setup
      → Bool
      → Bool
      → String ⊎ (String × Raw)
      → List AgentEvent
      → HarnessEnd
      → List Bool
      → List (List Sampled)
      → Running
  unfolding surface announce drive acts_live acts_queued
  run_turn session_id (refused_config error) by_session by_turn prep es end answers sampler =
      surface (config_error session_id error) (new_running answers [])
  run_turn session_id broken_setup by_session by_turn prep es end answers sampler =
      new_running answers []
  run_turn session_id set_up by_session by_turn prep es end answers sampler =
      pause
        (drive session_id prep es end (announce by_session by_turn (new_running answers sampler)))
