-- ===== src/Worker/Running/Log.antt =====
-- harness_run/runtime/sandbox/worker.py: the record and the mirror's queue of a turn that runs, and
-- harness_run/runtime/sandbox/resources.py: what its sampler does and observes.
use harness_run.Base.{
  ℕ, String, ◌<>◌, Bool, false, Option, none, some, List, [], ◌∷◌, if◌then◌else◌, ltb,
}
use harness_run.Base.Texts.{clip, size}
use harness_run.Events.{AgentEvent, Raw, no_keys, MirroredBy, Scalar, int, Source, Resources}

-- What the sampler's thread does at one time: a sample goes to the mirror only; the warning of
-- memory pressure is put on the record, and then in the mirror's queue. Each has its summary.
pub data Sampled : Type 0 where
  sampled pressed pressure_mirrored : String → Sampled

-- `EVENT_SUMMARY_CAP`
abbrev pub event_summary_cap : ℕ
event_summary_cap = 200000

unfoldable pub cut : String → String
unfolding size
cut s = if ltb event_summary_cap (size s) then clip event_summary_cap s <> " …[truncated]" else s

-- `_line`
abbrev pub line : AgentEvent → AgentEvent
line e = record e { summary = cut e.summary }

-- The events on the record and those that went to the mirror's writer, each in order; the
-- answers that the coming awaited writes give; what the sampler does each time that the turn's
-- thread is about to write to one of them; the results whose write was acknowledged; and
-- whether a terminal result was surfaced.
pub record Running : Type 0 where
  pub live : List AgentEvent
  pub queued : List AgentEvent
  pub answers : List Bool
  pub sampler : List (List Sampled)
  pub acked : List AgentEvent
  pub saw_result : Bool

abbrev pub raw_of : AgentEvent → Raw
raw_of e = elim e.raw [ none ↦ no_keys | some r ↦ r ]

-- An answer, `false` also where the wait has timed out.
abbrev pub answer_of : List Bool → Bool
answer_of [] = false
answer_of (b ∷ bs) = b

abbrev pub later : List Bool → List Bool
later [] = []
later (b ∷ bs) = bs

abbrev pub acts_of : List (List Sampled) → List Sampled
acts_of [] = []
acts_of (b ∷ bs) = b

abbrev pub later_acts : List (List Sampled) → List (List Sampled)
later_acts [] = []
later_acts (b ∷ bs) = bs

abbrev pub flag : MirroredBy → AgentEvent → AgentEvent
flag by e = record e { raw = some (record (raw_of e) { mirror = some by }) }

-- What stands between the request and the turn: its config is refused with a text, something else
-- raises (`baked_spec`, the job's directory), or the turn is set up.
pub data Setup : Type 0 where
  refused_config : String → Setup
  broken_setup : Setup
  set_up : Setup

-- How the harness's stream ends.
pub data HarnessEnd : Type 0 where
  finished : HarnessEnd
  raised : String → HarnessEnd

-- `dict.setdefault`, and nothing where there is no value.
abbrev pub set_default : {A : Type 0} → Option A → Option A → Option A
set_default v (some a) = some a
set_default v none = v

abbrev pub scalar_of : Option ℕ → Option Scalar
scalar_of none = none
scalar_of (some n) = some (int n)

-- `ResourceSampler.enrich_result`, of what the sampler has observed by then.
unfoldable pub enrich_result : Resources → Raw → Raw
enrich_result o r = record r {
  memory_peak_bytes = set_default (scalar_of o.memory_peak_bytes) r.memory_peak_bytes;
  memory_limit_bytes = set_default (scalar_of o.memory_limit_bytes) r.memory_limit_bytes;
  cpu_usec = set_default (scalar_of o.cpu_usec) r.cpu_usec;
}

-- What is observed, if there is a sampler, and the skills' provenance, once it is known.
unfoldable pub enrich : Option Resources → Option (List Source) → Raw → Raw
unfolding enrich_result
enrich observed sources r =
    let o : Raw = elim observed [ none ↦ r | some o ↦ enrich_result o r ] in
    record o { skill_sources = set_default sources o.skill_sources }
