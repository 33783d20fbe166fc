-- ===== src/Relay/Client/Refusals.antt =====
-- internal/relay/client.go: which event a 400 makes `PostEvents` drop, and how large a request is.
use agentpulse_bridge.Base.{
  ◌+◌, ◌≤◌, ◌<◌, ◌≡◌, ◌⊎◌, inl, inr, List, [], ◌∷◌, ◌++◌, map, All, arith, length, length-append,
  Bytes,
}
use agentpulse_bridge.Base.Text.{codes}
use agentpulse_bridge.Relay.Chunk.{next_chunk, max_chunk_bytes, batch_overhead_bytes}
use agentpulse_bridge.Relay.Chunk.Bounds.{weight}
use agentpulse_bridge.Relay.Chunk.Split.{next_chunk-Splits}
use agentpulse_bridge.Relay.Client.{batch_body, join}

length-join : (x : Bytes) (xs : List Bytes) → length (join (x ∷ xs)) + 1 ≡ weight (x ∷ xs)
length-join x [] = omega arith
length-join x (y ∷ xs) = omega (arith, length-append x (b',' ∷ join (y ∷ xs)), length-join y xs)

-- An event takes no more room in the request than it does in the spool.
abbrev pub IsCompact : (Bytes → Bytes) → Bytes → Type 0
IsCompact compact e = length (compact e) ≤ length e

weight-map :
    (compact : Bytes → Bytes) (es : List Bytes)
    → All (IsCompact compact) es
    → weight (map compact es) ≤ weight es
weight-map compact [] h = omega arith
weight-map compact (e ∷ es) h = omega (arith, h.0, weight-map compact es h.1)

length-batch_body :
    (compact : Bytes → Bytes) (version : Bytes) (x : Bytes) (xs : List Bytes)
    → length (batch_body compact version (x ∷ xs))
      ≡ 34 + length version + weight (map compact (x ∷ xs))
unfolding batch_body
length-batch_body compact version x xs =
    let j = join (map compact (x ∷ xs)) in
    let mid = codes "],\"watch_list_version\":" in
    omega (
      arith,
      length-append (j ++ mid ++ version) (b'}' ∷ []),
      length-append (j ++ mid) version,
      length-append j mid,
      length-join (compact x) (map compact xs),
    )

body_le :
    (compact : Bytes → Bytes) (version : Bytes) (chunk : List Bytes)
    → length version ≤ 14
    → 0 < length chunk
    → All (IsCompact compact) chunk
    → (batch_overhead_bytes + weight chunk ≤ max_chunk_bytes) ⊎ (length chunk ≡ 1)
    → (length (batch_body compact version chunk) ≤ max_chunk_bytes) ⊎ (length chunk ≡ 1)
body_le compact version [] short sends c small = absurd (omega arith)
body_le compact version (x ∷ xs) short sends c (inl small) =
    inl (omega (arith, length-batch_body compact version x xs, weight-map compact (x ∷ xs) c))
body_le compact version (x ∷ xs) short sends c (inr single) = inr single

-- A request of a chunk that `nextChunk` made has a body of at most 16 KiB unless it carries a single
-- event, for a watch list version of at most fourteen digits and events that json.Marshal does not
-- lengthen.
pub length-batch_body-le :
    (compact : Bytes → Bytes) (version : Bytes) (events : List Bytes)
    → length version ≤ 14
    → 0 < length (next_chunk events).chunk
    → All (IsCompact compact) (next_chunk events).chunk
    → (length (batch_body compact version (next_chunk events).chunk) ≤ max_chunk_bytes)
      ⊎ (length (next_chunk events).chunk ≡ 1)
length-batch_body-le compact version events short sends c =
    body_le compact version (next_chunk events).chunk short sends c
      (next_chunk-Splits events).bounded.small
