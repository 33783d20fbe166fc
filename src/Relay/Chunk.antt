-- ===== src/Relay/Chunk.antt =====
-- internal/relay/chunk.go: `nextChunk`, the next request's worth of events.
pub mod Bounds
pub mod Split
use agentpulse_bridge.Base.{
  ℕ, zero, suc, ◌+◌, ◌*◌, ◌≤◌, ◌<◌, ◌≡◌, Bool, true, false, ◌&&◌, ◌||◌, List, [], ◌∷◌, ◌++◌, arith,
  ltb, leb, if◌then◌else◌, length, Bytes,
}

abbrev pub max_events_per_chunk : ℕ
max_events_per_chunk = 50

abbrev pub max_chunk_bytes : ℕ
max_chunk_bytes = 16 * 1024

abbrev pub batch_overhead_bytes : ℕ
batch_overhead_bytes = 48

pub record Chunk : Type 0 where
  pub chunk : List Bytes
  pub consumed : ℕ
  pub oversized : List ℕ

abbrev pub is_oversized : Bytes → Bool
is_oversized e = ltb max_chunk_bytes (length e)

-- The loop body's three ways on: stop, skip an oversized event, take the event.
abbrev pub skip : ℕ → Chunk → Chunk
skip i c = record c { consumed = c.consumed + 1; oversized = c.oversized ++ i ∷ [] }

abbrev pub add : Bytes → Chunk → Chunk
add e c = record c { chunk = c.chunk ++ e ∷ []; consumed = c.consumed + 1 }

abbrev pub is_full : ℕ → Bytes → Chunk → Bool
is_full total e c =
    leb max_events_per_chunk (length c.chunk) || ltb max_chunk_bytes (total + (length e + 1))

abbrev pub has_events : Chunk → Bool
has_events c = ltb 0 (length c.chunk)

unfoldable pub chunk_loop : ℕ → ℕ → Chunk → List Bytes → Chunk
chunk_loop i total c [] = c
chunk_loop i total c (e ∷ es) =
    let skipped = chunk_loop (i + 1) total (skip i c) es in
    let taken = chunk_loop (i + 1) (total + (length e + 1)) (add e c) es in
    if is_oversized e
    then (if has_events c then c else skipped)
    else if has_events c && is_full total e c
    then c
    else taken

abbrev pub empty_chunk : Chunk
empty_chunk = record { chunk = []; consumed = 0; oversized = [] }

unfoldable pub next_chunk : List Bytes → Chunk
unfolding chunk_loop
next_chunk events = chunk_loop 0 batch_overhead_bytes empty_chunk events
