-- ===== src/Codex/Loop/Uncapped.antt =====
-- A cap that is hit while an operator's message is to be continued with.
use harness_run.Base.{
  ℕ, ◌+◌, String, ◌≡◌, refl, Option, none, some, List, [], ◌∷◌, map, length, arith, ◌∙◌,
}
use harness_run.Control.{ControlMessage, interrupt, user_event}
use harness_run.Events.{AgentEvent}
use harness_run.Codex.{
  Counts, observe, Limit, Completion, used, completed, Turn, Flow, going, finished, crashed, say,
}
use harness_run.Codex.Loop.{on_used, on_completed, on_item, run, segment_ended}

-- The turn goes on with as many more model calls, and without a further interrupt.
pub record GoesOn (n : ℕ) (t u : Turn) : Type 0 where
  pub calls_made : u.acct.model_calls ≡ t.acct.model_calls + n
  pub never_asked : u.interrupts ≡ t.interrupts
  pub limit_kept : u.limit ≡ t.limit

abbrev pub StillGoes : ℕ → Turn → Flow → Type 0
StillGoes n t (going u) = GoesOn n t u
StillGoes n t f = ⊥

StillGoes-from :
    (n k m : ℕ) (t u : Turn) (f : Flow)
    → u.acct.model_calls ≡ t.acct.model_calls + k
    → u.interrupts ≡ t.interrupts
    → u.limit ≡ t.limit
    → m ≡ n + k
    → StillGoes n u f
    → StillGoes m t f
StillGoes-from n k m t u (going v) a b c e h = record {
  calls_made = omega (arith, h.calls_made, a, e);
  never_asked = h.never_asked ∙ b;
  limit_kept = h.limit_kept ∙ c;
}
StillGoes-from n k m t u (finished v) a b c e h = elim h [ ]
StillGoes-from n k m t u (crashed exc v) a b c e h = elim h [ ]

module _ (session_id : String) (turns_cap budget_cap : ℕ) (checkpoint : Option AgentEvent) where
  on_used_kept :
      (c : Counts) (t : Turn) (l : Limit)
      → t.limit ≡ some l
      → on_used session_id turns_cap budget_cap checkpoint c t
        ≡ record t { acct = observe c t.acct }
  unfolding on_used
  on_used_kept c t l h = rw h refl

  run-used :
      (us : List Counts) (t : Turn) (l : Limit)
      → t.limit ≡ some l
      → StillGoes (length us) t (run session_id turns_cap budget_cap checkpoint (map used us) t)
  unfolding run on_item on_used observe
  run-used [] t l h = record { calls_made = omega arith; never_asked = refl; limit_kept = refl }
  run-used (c ∷ us) t l h = rw (on_used_kept c t l h) (
      StillGoes-from (length us) 1 (length (c ∷ us)) t (record t { acct = observe c t.acct })
        (run session_id turns_cap budget_cap checkpoint (map used us)
          (record t { acct = observe c t.acct }))
        refl refl refl (omega arith) (run-used us (record t { acct = observe c t.acct }) l h))

  -- A turn for which a cap is noted and an operator's interrupt with a message is pending, once
  -- Codex has completed it and takes the message: the run goes on, and whatever model calls
  -- follow, the cap stays noted and Codex is not asked to stop for any of them.
  pub run-completed :
      (us : List Counts) (c : Completion) (text : Option String) (id : String) (l : Limit)
      (t : Turn)
      → let halted = record t {
        limit = some l;
        interrupt_pending = some (record { op = interrupt; message = text; message_id = id });
        calls = [];
      } in
        StillGoes
          (length us)
          halted
          (run session_id turns_cap budget_cap checkpoint (completed c ∷ map used us) halted)
  unfolding run on_item on_completed user_event
  run-completed us c text id l t =
      let m : ControlMessage = record { op = interrupt; message = text; message_id = id } in
      let quiet : Turn = record t { limit = some l; interrupt_pending = none; calls = [] } in
      let next =
        say (user_event m) (say (segment_ended session_id turns_cap budget_cap checkpoint) quiet) in
      StillGoes-from (length us) 0 (length us)
        (record t { limit = some l; interrupt_pending = some m; calls = [] }) next
        (run session_id turns_cap budget_cap checkpoint (map used us) next) (omega arith) refl refl
        (omega arith) (run-used us next l refl)
