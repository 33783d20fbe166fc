-- ===== src/Hooks.antt =====
-- internal/hooks: the bridge's entries in Claude Code's settings file.
pub mod Words
pub mod Owner
pub mod Merge
pub mod Diff
pub mod Splice
pub mod Scan
pub mod Plan
