-- ===== src/Relay.antt =====
-- internal/relay: how the bridge talks to the relay.
pub mod Types
pub mod Chunk
pub mod Detail
pub mod Client
