-- ===== src/Classify.antt =====
-- internal/classify: one hook call of Claude Code becomes at most one event.
pub mod Event
pub mod State
pub mod Input
pub mod Names
pub mod Env
pub mod Runners
pub mod Results
pub mod Build
pub mod Handlers
pub mod Isolation
pub mod Cap
pub mod Pairing
pub mod Stamps
