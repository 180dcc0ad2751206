-- ===== src/Tests.antt =====
-- Runs at concrete inputs, and the theorems at inputs that meet their hypotheses.
mod ThreadRuns
mod RosterRuns
mod RunRuns
mod UsageRuns
mod SandboxRuns
mod MirrorRuns
mod ConfigRuns
mod SessionRuns
mod RunTurnRuns
mod SetupRuns
mod ClaudeRuns
mod CodexRuns
