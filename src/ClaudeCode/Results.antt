-- ===== src/ClaudeCode/Results.antt =====
-- harness_run/harness/claude_code.py, `ClaudeCodeHarness._run` and `_final_result`: the events that
-- a turn makes itself, and what it notes of each event of the CLI.
use harness_run.Base.{
  ℕ, zero, suc, String, ◌==◌, Bool, true, false, not, ◌&&◌, Option, none, some, List, [], ◌∷◌, ◌++◌,
  if◌then◌else◌, append_one, eqb, length,
}
use harness_run.Usage.{Usage, from_claude_model_usage, from_claude_cli_usage}
use harness_run.Events.{AgentEvent, Raw, no_keys, Kind}
use harness_run.ClaudeCode.{
  raw_of, is_event, has_subtype, is_output, is_message, has_id, task_id, observe_tasks,
  observe_steers, Turn,
}

abbrev pub status : String → String → AgentEvent
status event summary = record {
  kind = Kind.status;
  summary = summary;
  raw = some (record no_keys { event = some event });
  cost_usd = none;
  usage = none;
}

abbrev pub say : AgentEvent → Turn → Turn
say e t = record t { out = append_one t.out e }

-- All but the last element, and the last one.
abbrev pub init : List AgentEvent → List AgentEvent
init [] = []
init (e ∷ []) = []
init (e ∷ f ∷ es) = e ∷ init (f ∷ es)

abbrev pub last_of : AgentEvent → List AgentEvent → AgentEvent
last_of e [] = e
last_of e (f ∷ es) = last_of f es

abbrev pub demote : AgentEvent → Turn → Turn
demote e t = record t { demoted = append_one t.demoted e }

abbrev pub text_or_interrupted : Turn → String
text_or_interrupted t = if t.last_text == "" then "(interrupted)" else t.last_text

abbrev pub synthetic : String → String → Bool → String → AgentEvent
synthetic session_id subtype is_error summary = record {
  kind = Kind.result;
  summary = summary;
  raw = some (record no_keys {
    subtype = some subtype;
    is_error = is_error;
    num_turns = some 0;
    session_id = some session_id;
  });
  cost_usd = none;
  usage = none;
}

-- `mark_interrupted`, with the text of a settled result.
abbrev pub mark_interrupted : Option String → AgentEvent → AgentEvent
mark_interrupted text e = record e {
  summary = elim text [ none ↦ e.summary | some s ↦ s ];
  raw = some (record (raw_of e) { subtype = some "interrupted"; is_error = false });
}

-- The result of a CLI that had only an old task to report.
abbrev pub unspent : Option ℕ → Bool
unspent none = true
unspent (some n) = eqb n 0

abbrev pub no_tokens : Usage → Bool
no_tokens u =
    unspent u.input_tokens
    && unspent u.cache_read_input_tokens
    && unspent u.cache_creation_input_tokens
    && unspent u.output_tokens
    && unspent u.reasoning_output_tokens

abbrev pub is_zero_turns : Option ℕ → Bool
is_zero_turns none = false
is_zero_turns (some n) = eqb n 0

abbrev pub no_models : Raw → Bool
no_models r = elim r.model_usage [ none ↦ true | some us ↦ eqb (length us) 0 ]

unfoldable pub is_housekeeping : AgentEvent → Turn → Bool
is_housekeeping e t =
    t.resume_opening
    && t.orphaned_resume_task
    && has_subtype "success" e
    && not (raw_of e).is_error
    && is_zero_turns (raw_of e).num_turns
    && e.summary == "(no final text)"
    && not (raw_of e).structured_output
    && no_models (raw_of e)
    && no_tokens (from_claude_cli_usage e.usage)
    && unspent e.cost_usd

-- The state after an event, up to `if event.kind != "result"`.
abbrev pub note_orphan : AgentEvent → Turn → Turn
note_orphan e t =
    if t.resume_opening && is_event "task_terminal" e && not (has_id (task_id e) t.tasks.pending)
    then record t { orphaned_resume_task = true }
    else t

abbrev pub note_output : AgentEvent → Turn → Turn
note_output e t =
    if is_output e
    then record t {
      resume_opening = false;
      awaiting_resume_prompt = false;
      resume_deadline = false;
    }
    else t

abbrev pub note_text : AgentEvent → Turn → Turn
note_text e t = if is_message e then record t { last_text = e.summary } else t

abbrev pub note_init : AgentEvent → Turn → Turn
note_init e t =
    if has_subtype "init" e
    then record t {
      active = true;
      wait_deadline = false;
      steer_deadline = false;
      resume_deadline = false;
    }
    else t

unfoldable pub note : AgentEvent → Turn → Turn
note e t =
    let u = note_output e (note_orphan e t) in
    note_init e (
      note_text e
        (record u { tasks = observe_tasks e u.tasks; steers = observe_steers e u.steers }))

abbrev pub or_zero : Option ℕ → ℕ
or_zero none = 0
or_zero (some n) = n

-- The end of what the CLI wrote to stderr, which is not empty, and the path of the log.
pub record StderrTail : Type 0 where
  pub tail : String
  pub log : String

-- `session_id`; for a spec with an output schema, which texts `parse_structured_output` accepts;
-- what `_finalize` yields; and the tail of the CLI's error output, where there is one.
module _ (session_id : String) (accepts : Option (String → Bool)) (checkpoint : Option AgentEvent)
    (stderr_tail : Option StderrTail) where
  -- `segment_summaries` of the demoted results, newest first, three at most.
  abbrev pub candidates : (String → Bool) → ℕ → List AgentEvent → List String
  candidates ok room [] = []
  candidates ok zero (e ∷ es) = []
  candidates ok (suc room) (e ∷ es) =
      let taken = candidates ok room es in
      let skipped = candidates ok (suc room) es in
      if not (e.summary == "") && ok e.summary then e.summary ∷ taken else skipped

  abbrev pub newest_first : List AgentEvent → List AgentEvent
  newest_first [] = []
  newest_first (e ∷ es) = newest_first es ++ (e ∷ [])

  abbrev pub segment_summaries : List AgentEvent → List String
  segment_summaries es = elim accepts [ none ↦ [] | some ok ↦ candidates ok 3 (newest_first es) ]

  -- `_final_result`
  abbrev pub usage_of : AgentEvent → Raw → Usage
  usage_of e r = elim (from_claude_model_usage r.model_usage) [
    | some u ↦ u
    | none ↦ from_claude_cli_usage e.usage
  ]

  abbrev pub kept_summaries : List String → List String → List String
  kept_summaries [] old = old
  kept_summaries (s ∷ ss) old = s ∷ ss

  unfoldable pub final_result : List AgentEvent → ℕ → AgentEvent → AgentEvent
  final_result demoted turns e = elim e.raw [
    | none ↦ e
    | some r ↦ record e {
      raw = some (record r {
        num_turns = some turns;
        segment_summaries = kept_summaries (segment_summaries demoted) r.segment_summaries;
      });
      usage = some (usage_of e r);
    }
  ]
