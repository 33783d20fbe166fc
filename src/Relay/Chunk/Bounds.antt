-- ===== src/Relay/Chunk/Bounds.antt =====
-- internal/relay/chunk.go: what a chunk holds, how large it is, and that it makes progress.
use agentpulse_bridge.Base.{
  ℕ, zero, suc, ◌+◌, ◌≤◌, ◌<◌, ◌≡◌, refl, sym, ◌∙◌, ◌⊎◌, inl, inr, true, false, List, [], ◌∷◌, ◌++◌,
  append-nil, append_assoc, arith, lt→ltb, length, take, length-append, All, Bool-cases, Bytes,
}
use agentpulse_bridge.Relay.Chunk.{
  Chunk, chunk_loop, add, is_oversized, is_full, has_events, max_events_per_chunk, max_chunk_bytes,
  batch_overhead_bytes,
}

-- Bytes of the events in the body, each with a separating comma.
abbrev pub weight : List Bytes → ℕ
weight [] = 0
weight (e ∷ es) = length e + 1 + weight es

-- The numbers i, i + 1, ... of the given count.
abbrev pub indices : ℕ → ℕ → List ℕ
indices zero i = []
indices (suc n) i = i ∷ indices n (i + 1)

weight-append : (xs ys : List Bytes) → weight (xs ++ ys) ≡ weight xs + weight ys
weight-append [] ys = omega arith
weight-append (x ∷ xs) ys = omega (arith, weight-append xs ys)

-- The size of a chunk: at most 50 events, and within the byte limit unless it is a single event.
pub record IsBounded (c : List Bytes) : Type 0 where
  pub few : length c ≤ max_events_per_chunk
  pub small : (batch_overhead_bytes + weight c ≤ max_chunk_bytes) ⊎ (length c ≡ 1)

-- What the loop does from a chunk that holds an event: it takes the next `n` events.
pub record Grows (c r : Chunk) (es : List Bytes) : Type 0 where
  pub n : ℕ
  pub chunk : r.chunk ≡ c.chunk ++ take n es
  pub consumed : r.consumed ≡ c.consumed + n
  pub oversized : r.oversized ≡ c.oversized
  pub in_range : n ≤ length es
  pub fit : All (λ e. length e ≤ max_chunk_bytes) (take n es)
  pub bounded : IsBounded r.chunk

stays : (c : Chunk) (es : List Bytes) → IsBounded c.chunk → Grows c c es
stays c es b = record {
  n = 0;
  chunk = sym (append-nil c.chunk);
  consumed = omega arith;
  oversized = refl;
  in_range = omega arith;
  fit = tt;
  bounded = b;
}

add-IsBounded :
    (total : ℕ) (e : Bytes) (c : Chunk)
    → total ≡ batch_overhead_bytes + weight c.chunk
    → is_full total e c ≡ false
    → IsBounded (add e c).chunk
add-IsBounded total e c t h = record {
  few = ground (arith, length-append c.chunk (e ∷ []));
  small = inl (ground (arith, weight-append c.chunk (e ∷ [])));
}

add-Grows :
    {c r : Chunk} {es : List Bytes} (e : Bytes)
    → is_oversized e ≡ false
    → Grows (add e c) r es
    → Grows c r (e ∷ es)
add-Grows {c} {r} {es} e fits g = record {
  n = suc g.n;
  chunk = g.chunk ∙ append_assoc c.chunk (e ∷ []) (take g.n es);
  consumed = omega (arith, g.consumed);
  oversized = g.oversized;
  in_range = omega (arith, g.in_range);
  fit = (ground arith, g.fit);
  bounded = g.bounded;
}

pub chunk_loop-Grows :
    (i total : ℕ) (c : Chunk) (es : List Bytes)
    → total ≡ batch_overhead_bytes + weight c.chunk
    → 0 < length c.chunk
    → IsBounded c.chunk
    → Grows c (chunk_loop i total c es) es
unfolding chunk_loop
chunk_loop-Grows i total c [] t h b = stays c [] b
chunk_loop-Grows i total c (e ∷ es) t h b =
    let has : has_events c ≡ true = lt→ltb 0 (length c.chunk) h in
    elim (Bool-cases (is_oversized e)) [
      | inl big ↦ rw (big, has) (stays c (e ∷ es) b)
      | inr fits ↦ elim (Bool-cases (is_full total e c)) [
        | inl full ↦ rw (fits, has, full) (stays c (e ∷ es) b)
        | inr room ↦
            rw (fits, has, room)
              (add-Grows e fits (
                chunk_loop-Grows (i + 1) (total + (length e + 1)) (add e c) es
                  (omega (arith, weight-append c.chunk (e ∷ [])))
                  (omega (arith, length-append c.chunk (e ∷ []))) (add-IsBounded total e c t room)))
      ]
    ]
