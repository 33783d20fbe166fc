-- ===== src/Tests.antt =====
-- Runs of the definitions at concrete inputs, and the theorems at inputs that meet their hypotheses.
mod Spool
mod Relay
mod Backlog
mod Classify
mod Flush
mod Json
mod Hooks
mod Settings
mod Results
mod Hook
mod Pair
mod Scan
mod Plan
