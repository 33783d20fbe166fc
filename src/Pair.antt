-- ===== src/Pair.antt =====
-- internal/pair: the name that a machine pairs under, and the wait for the phone.
pub mod Machine
pub mod Poll
