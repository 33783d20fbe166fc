-- ===== src/Relay/Chunk/Split.antt =====
-- internal/relay/chunk.go: how `nextChunk` divides the front of its events.
use agentpulse_bridge.Base.{
  ℕ, zero, suc, ◌+◌, ◌≤◌, ◌<◌, ◌≡◌, refl, sym, ap, ◌∙◌, inl, inr, true, false, List, [], ◌∷◌, ◌++◌,
  append-nil, append_assoc, arith, length, take, drop, take-append-drop, All, Bool-cases, Bytes,
}
use agentpulse_bridge.Relay.Chunk.{
  Chunk, chunk_loop, next_chunk, add, is_oversized, max_chunk_bytes, batch_overhead_bytes,
}
use agentpulse_bridge.Relay.Chunk.Bounds.{indices, IsBounded, Grows, chunk_loop-Grows}

-- A chunk with no event in it yet.
abbrev none_taken : ℕ → List ℕ → Chunk
none_taken k ov = record { chunk = []; consumed = k; oversized = ov }

-- From such a chunk: first the oversized events at the front, `skipped`, then the chunk, which is
-- the run of events that follows.
record Divides (k : ℕ) (ov : List ℕ) (r : Chunk) (i : ℕ) (events : List Bytes) : Type 0 where
  skipped : List Bytes
  too_big : All (λ e. max_chunk_bytes < length e) skipped
  oversized : r.oversized ≡ ov ++ indices (length skipped) i
  n : ℕ
  consumed : r.consumed ≡ k + n
  counts : n ≡ length skipped + length r.chunk
  in_range : n ≤ length events
  prefix : take n events ≡ skipped ++ r.chunk
  fit : All (λ e. length e ≤ max_chunk_bytes) r.chunk
  bounded : IsBounded r.chunk
  progress : 0 < length events → 0 < n

nothing_left : (k : ℕ) (ov : List ℕ) (i : ℕ) → Divides k ov (none_taken k ov) i []
nothing_left k ov i = record {
  skipped = [];
  too_big = tt;
  oversized = sym (append-nil ov);
  n = 0;
  consumed = omega arith;
  counts = refl;
  in_range = omega arith;
  prefix = refl;
  fit = tt;
  bounded = record { few = omega arith; small = inl (omega arith) };
  progress = λ h. h;
}

skip-Divides :
    {k : ℕ} {ov : List ℕ} {r : Chunk} {i : ℕ} {es : List Bytes} (e : Bytes)
    → is_oversized e ≡ true
    → Divides (k + 1) (ov ++ i ∷ []) r (i + 1) es
    → Divides k ov r i (e ∷ es)
skip-Divides {ov} {i} e big d = record {
  skipped = e ∷ d.skipped;
  too_big = (ground arith, d.too_big);
  oversized = d.oversized ∙ append_assoc ov (i ∷ []) (indices (length d.skipped) (i + 1));
  n = suc d.n;
  consumed = omega (arith, d.consumed);
  counts = omega (arith, d.counts);
  in_range = omega (arith, d.in_range);
  prefix = ap (λ (t : List Bytes). e ∷ t) d.prefix;
  fit = d.fit;
  bounded = d.bounded;
  progress = λ h. omega arith;
}

length-taken : (n : ℕ) (es : List Bytes) → n ≤ length es → length (take n es) ≡ n
length-taken zero es h = refl
length-taken (suc n) [] h = absurd (omega arith)
length-taken (suc n) (e ∷ es) h = ap suc (length-taken n es (omega arith))

take-Divides :
    {k : ℕ} {ov : List ℕ} {r : Chunk} {i : ℕ} {es : List Bytes} (e : Bytes)
    → is_oversized e ≡ false
    → Grows (add e (none_taken k ov)) r es
    → Divides k ov r i (e ∷ es)
take-Divides {ov} {r} {es} e fits g = record {
  skipped = [];
  too_big = tt;
  oversized = g.oversized ∙ sym (append-nil ov);
  n = suc g.n;
  consumed = omega (arith, g.consumed);
  counts = omega (arith, ap length g.chunk, length-taken g.n es g.in_range);
  in_range = omega (arith, g.in_range);
  prefix = sym g.chunk;
  fit = rw g.chunk (ground arith, g.fit);
  bounded = g.bounded;
  progress = λ h. omega arith;
}

single-IsBounded : (e : Bytes) → IsBounded (e ∷ [])
single-IsBounded e = record { few = omega arith; small = inr refl }

chunk_loop-Divides :
    (i k : ℕ) (ov : List ℕ) (es : List Bytes)
    → Divides k ov (chunk_loop i batch_overhead_bytes (none_taken k ov) es) i es
unfolding chunk_loop
chunk_loop-Divides i k ov [] = nothing_left k ov i
chunk_loop-Divides i k ov (e ∷ es) = elim (Bool-cases (is_oversized e)) [
  | inl big ↦ rw big (skip-Divides e big (chunk_loop-Divides (i + 1) (k + 1) (ov ++ i ∷ []) es))
  | inr fits ↦ rw fits (
      take-Divides e fits (
        chunk_loop-Grows (i + 1) (batch_overhead_bytes + (length e + 1)) (add e (none_taken k ov))
          es (omega arith) (omega arith) (single-IsBounded e)))
]

-- What `nextChunk` returns, in terms of its events.
pub record Splits (r : Chunk) (events : List Bytes) : Type 0 where
  pub skipped : List Bytes
  pub rest : List Bytes
  pub whole : events ≡ (skipped ++ r.chunk) ++ rest
  pub remaining : rest ≡ drop r.consumed events
  pub too_big : All (λ e. max_chunk_bytes < length e) skipped
  pub fit : All (λ e. length e ≤ max_chunk_bytes) r.chunk
  pub oversized : r.oversized ≡ indices (length skipped) 0
  pub consumed : r.consumed ≡ length skipped + length r.chunk
  pub bounded : IsBounded r.chunk
  pub progress : 0 < length events → 0 < r.consumed

-- `nextChunk` cuts its events into the oversized ones at the front, whose indices it lists, the
-- chunk, whose events all fit, and the rest. It consumes exactly the first two parts and at least
-- one event, and the chunk has at most 50 events and keeps the byte limit unless it is one event.
pub next_chunk-Splits : (events : List Bytes) → Splits (next_chunk events) events
unfolding next_chunk
next_chunk-Splits events =
    let d = chunk_loop-Divides 0 0 [] events in
    record {
      skipped = d.skipped;
      rest = drop d.n events;
      whole =
          sym (take-append-drop d.n events)
          ∙ ap (λ (t : List Bytes). t ++ drop d.n events) d.prefix;
      remaining = ap (λ (m : ℕ). drop m events) (omega (arith, d.consumed));
      too_big = d.too_big;
      fit = d.fit;
      oversized = d.oversized;
      consumed = omega (arith, d.consumed, d.counts);
      bounded = d.bounded;
      progress = λ h. omega (arith, d.consumed, d.progress h);
    }
