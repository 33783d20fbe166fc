-- ===== src/Flush.antt =====
-- cmd/agentpulse/flush.go and flush_subagent.go: one run of `agentpulse flush` from the drained
-- batch to what is committed, and the state that it saves (internal/state/state.go).
pub mod Types
pub mod Subagents
pub mod Waits
pub mod Loop
pub mod Run
