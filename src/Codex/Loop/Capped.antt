-- ===== src/Codex/Loop/Capped.antt =====
-- The caps of a Codex turn.
use harness_run.Base.{ℕ, ◌<◌, ◌≤◌, String, ◌≡◌, Option, none, some, ◌⊎◌}
use harness_run.Events.{AgentEvent}
use harness_run.Codex.{RunAccounting, cost_usd, Limit, Turn, Flow, going, finished, crashed}

-- Below both caps, or before the first model call.
abbrev pub IsUnder : ℕ → ℕ → RunAccounting → Type 0
IsUnder turns_cap budget_cap a =
    (a.model_calls ≡ 0)
    ⊎ ((a.model_calls < turns_cap) × ((c : ℕ) → cost_usd a ≡ some c → c < budget_cap))

-- A turn for which no cap has been noted is below both; one for which one has was interrupted.
pub record IsCapped (turns_cap budget_cap : ℕ) (t : Turn) : Type 0 where
  pub under : t.limit ≡ none → IsUnder turns_cap budget_cap t.acct
  pub stopped : (l : Limit) → t.limit ≡ some l → 1 ≤ t.interrupts

abbrev pub FlowCapped : ℕ → ℕ → Flow → Type 0
FlowCapped turns_cap budget_cap (going t) = IsCapped turns_cap budget_cap t
FlowCapped turns_cap budget_cap (finished t) = IsCapped turns_cap budget_cap t
FlowCapped turns_cap budget_cap (crashed exc t) = IsCapped turns_cap budget_cap t

module _ (session_id : String) (turns_cap budget_cap : ℕ) (checkpoint : Option AgentEvent) where
  abbrev Capped : Turn → Type 0
  Capped t = IsCapped turns_cap budget_cap t

  abbrev Kept : Flow → Type 0
  Kept f = FlowCapped turns_cap budget_cap f
