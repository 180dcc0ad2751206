-- ===== src/Lib.antt =====
-- The core of harness_run, which runs a coding agent's turns on disposable sandboxes: a client
-- dispatches a turn to a sandbox, the worker there drives the agent and serves its events, a mirror
-- in a bucket keeps them, and the client's run follows the events to the terminal result.
--
-- The parts, with the files that model them and the code that these stand for:
--
-- Roster, harness_run/runtime/sandbox/roster.py: the pool of ready sandboxes. Roster/Store.antt is
-- the object store (InMemoryRosterStore), with generations; Roster.antt is PoolRoster: add, remove,
-- _read, claim, prune_expired, clear. A claim deletes an object only in the generation that it read;
-- Roster/Race.antt has the rounds of several claims as steps, in any order.
--
-- Dispatch, harness_run/runtime/sandbox/backend.py: SandboxSession._dispatch, _hand_over,
-- _reconcile, _accepted, _runs_another_turn (Dispatch.antt), _claim_sandbox (Dispatch/Sources.antt),
-- and the part of _on_complete and _release_after_dispatch that decides who deletes a sandbox
-- (Dispatch/Ownership.antt, two threads as an interleaving of their steps). The network is a list
-- of calls, each answered, lost on either way, or refused by the platform; the sandboxes are a
-- function from names to workers. `_reconcile` and the loop over attempts are recursions on the
-- script of calls and of attempts, bounded by DISPATCH_ATTEMPTS; a script that ends is a dispatch
-- that is still asking.
--
-- Session, harness_run/runtime/sandbox/backend.py: the control messages that wait for a turn's
-- worker (Session.antt): _post_control, _post_control_now, _observe, _flush_control and
-- _drop_pending_control. A step is what one access to the queue under its lock does, or one post.
--
-- Worker, harness_run/runtime/sandbox/worker.py: TurnRecord, _TurnControl and the endpoints turn,
-- events, control, token (Worker.antt). One operation holds the worker's lock, so a step of the
-- worker is one operation. The wait of /events is not modelled: the page is that of the record as it
-- is when the wait ends. A mirror line is its JSON text.
-- Worker/Running.antt is run_turn: what the turn's thread writes to the record and to the mirror, where
-- the outcome of its setup and of the preparation, the harness's events and its ending, the answers of
-- the awaited writes and what the sampler observed are arguments. The sampler's thread acts, in any
-- way, before each write of the turn's thread and between its write to the one log and to the other.
-- Worker/Running/Log.antt has the two logs and the line of an event, with its cut at
-- EVENT_SUMMARY_CAP.
--
-- Mirror, harness_run/runtime/sandbox/stream.py: MirrorStream, with its queue as a list of what the
-- thread gets (Mirror.antt), and tail_stream with a turn id (Tail.antt), a list of polls. The
-- client's _stream_turn of backend.py is in Tail/Live.antt.
--
-- Run, harness_run/runtime/_run.py, with harness_run/events.py (Events.antt): DrivenRun, the events
-- of a source and its ending in place of the asyncio task, build_result and stop_reason_for.
--
-- Structured, harness_run/structured.py: extract_json and parse_structured_output, with the JSON
-- parser, the regular expression and the schema's validator as parameters.
--
-- Control, harness_run/control.py: ControlMessage, ControlledStream, ExecResult.
--
-- Usage, harness_run/harness/_usage.py: token records. Config, harness_run/config.py: the overlays
-- of a session and of a turn. Checkpoint, harness_run/checkpoint: session_store.py and workspace.py.
-- Handoff, harness_run/runtime/sandbox/handoff.py: the lifecycle rules of the run records.
--
-- ScopedGcs, harness_run/runtime/sandbox/scoped_gcs.py: worker_credentials and its refresh handler,
-- over a list of refreshes; what reading the token's object gives is an argument.
--
-- ProjectSetup, harness_run/runtime/sandbox/project_setup.py: missing_bindings, add_bindings, _grant,
-- whose rounds are a list of what is read and what the write gives, and lifecycle_missing.
--
-- ClaudeCode, harness_run/harness/claude_code.py: the trackers of background tasks and of operator
-- messages (ClaudeCode.antt), the events that a turn makes (ClaudeCode/Results.antt), its waits and
-- the operator's messages (ClaudeCode/Loop.antt), and ClaudeCodeHarness._run (ClaudeCode/Reading.antt)
-- over a list of what ControlledStream.next gives, on a model of Anthropic's, so without the proxy. A
-- deadline is a flag; that one has passed is an item of the list. The exceptions of client.query are
-- an argument.
--
-- Codex, harness_run/harness/codex.py: the accounting and the terminal result (Codex.antt, with
-- ModelPrice of harness_run/harness/pricing.py) and CodexHarness._run (Codex/Loop.antt), on a model of
-- OpenAI's and without subagents; new turns of the thread and the operator's messages can fail. The
-- persisted conversation is in Codex/Threads.antt: _rollout_destination, _persist_thread and
-- _restore_thread, over what the file system says of the paths and what the bucket's objects hold;
-- paths are lists of their parts.
--
-- Hosted.antt joins ClaudeCode and Worker/Running: run_turn over what Claude Code yields.
--
-- Base has the shared helpers, Tests the runs at concrete values and one instance of each result
-- that has hypotheses.
--
-- Numbers are natural numbers: times, token counts and sizes are never negative here, and Python's
-- integers have no bound. Costs and times are in a fixed small unit. Python dicts are lists in
-- insertion order, or records where the keys are fixed. Exceptions are constructors of a result.
-- Other processes' effects (a write that fails, a call that is lost, a listing) are arguments.
--
-- Not modelled: the harnesses' options and translators (harness/translate.py), Codex's subagents, the
-- OpenRouter proxy, the local runtime, skills and git, the image build and the sandbox provider,
-- which are mostly calls of other programs; minting the scoped tokens, and model_token.py; the audit
-- of a project; the key names of the mirror's objects, and reading the mirror without a turn id.
pub mod Base
pub mod Roster
pub mod Structured
pub mod Usage
pub mod Events
pub mod Run
mod Tests
pub mod Control
pub mod Worker
pub mod Dispatch
pub mod Mirror
pub mod Tail
pub mod Checkpoint
pub mod Config
pub mod Handoff
pub mod Session
pub mod ScopedGcs
pub mod ProjectSetup
pub mod ClaudeCode
pub mod Hosted
pub mod Codex
