-- ===== src/Relay/Client/Delivery.antt =====
-- internal/relay/client.go: what `PostEvents` has delivered when it returns.
use agentpulse_bridge.Base.{
  ℕ, zero, suc, ◌+◌, ◌-◌, ◌≤◌, ◌<◌, ◌≡◌, refl, ap, ◌∙◌, ◌⊎◌, inl, inr, Bool, Option, none, some,
  List, [], ◌∷◌, ◌++◌, map, arith, length, drop, length-append, length-drop, All, All-append,
  Bool-cases, Bytes,
}
use agentpulse_bridge.Relay.Types.{
  Response, empty_response, DroppedEvent, OkBody, PostError, status, encoding, status_error,
  timeout,
}
use agentpulse_bridge.Relay.Chunk.{next_chunk}
use agentpulse_bridge.Relay.Chunk.Bounds.{indices}
use agentpulse_bridge.Relay.Chunk.Split.{next_chunk-Splits}
use agentpulse_bridge.Relay.Client.{
  Codec, HttpResult, Posted, delivered, stopped, post_chunk, post_loop, post_events, merge_ok,
  named_by, drop_oversized, settle, record_oversized,
}

abbrev pub IsPlaced : ℕ → DroppedEvent → Type 0
IsPlaced total d = d.index < total

module _ (json : Codec) (expired : ℕ → Bool) (send : ℕ → List Bytes → HttpResult) where
  -- The relay answered the chunk of round `k` with a success, or the round had no chunk to send.
  abbrev pub IsAnswered : ℕ → List Bytes → Type 0
  IsAnswered k chunk =
      (chunk ≡ []) ⊎ ((body : OkBody) × (post_chunk json (send k) chunk ≡ delivered body))

  -- The first `n` of the events are those of consecutive rounds from `k` on, all answered.
  pub data Delivered : ℕ → List Bytes → ℕ → Type 0 where
    here : (k : ℕ) (rest : List Bytes) → Delivered k rest 0
    round :
        (k : ℕ) (rest : List Bytes) (n m : ℕ)
        → IsAnswered k (next_chunk rest).chunk
        → Delivered (k + 1) (drop (next_chunk rest).consumed rest) n
        → m ≡ (next_chunk rest).consumed + n
        → Delivered k rest m

  pub record Outcome (k offset total : ℕ) (rest : List Bytes)
      (o : Option (Response × Option PostError)) : Type 0 where
    pub r : Response
    pub e : Option PostError
    pub returns : o ≡ some (r, e)
    pub n : ℕ
    pub sent : r.sent ≡ offset + n
    pub covered : Delivered k rest n
    pub within : n ≤ length rest
    pub complete : e ≡ none → n ≡ length rest
    pub placed : All (IsPlaced total) r.dropped

  oversized-IsPlaced :
      (offset total m i : ℕ) (rest : List Bytes)
      → offset + i + m ≤ total
      → All (IsPlaced total) (map (drop_oversized json offset rest) (indices m i))
  oversized-IsPlaced offset total zero i rest h = tt
  oversized-IsPlaced offset total (suc m) i rest h =
      (omega arith, oversized-IsPlaced offset total m (i + 1) rest (omega arith))

  named-IsPlaced :
      (offset total : ℕ) (rest chunk : List Bytes) (err : PostError)
      → offset + length chunk ≤ total
      → All (IsPlaced total) (named_by json offset rest chunk err)
  unfolding named_by
  named-IsPlaced offset total rest chunk encoding h = tt
  named-IsPlaced offset total rest chunk (status e) h = ground arith

  -- `consumed` lies within the events that were left.
  within_rest : (rest : List Bytes) → (next_chunk rest).consumed ≤ length rest
  within_rest rest =
      let s = next_chunk-Splits rest in
      omega (
        arith,
        s.consumed,
        ap length s.whole,
        length-append (s.skipped ++ (next_chunk rest).chunk) s.rest,
        length-append s.skipped (next_chunk rest).chunk,
      )

  stop_here :
      (k offset total : ℕ) (rest : List Bytes) (r : Response) (e : PostError)
      → r.sent ≡ offset
      → All (IsPlaced total) r.dropped
      → Outcome k offset total rest (some (r, some e))
  stop_here k offset total rest r e at placed = record {
    r = r;
    e = some e;
    returns = refl;
    n = 0;
    sent = omega arith;
    covered = here k rest;
    within = omega arith;
    complete = λ p. cc;
    placed = placed;
  }

  go_on :
      {k offset total : ℕ} {rest : List Bytes} {o : Option (Response × Option PostError)}
      → IsAnswered k (next_chunk rest).chunk
      → Outcome
          (k + 1)
          (offset + (next_chunk rest).consumed)
          total
          (drop (next_chunk rest).consumed rest)
          o
      → Outcome k offset total rest o
  go_on {k} {offset} {total} {rest} answered next =
      let left = length-drop (next_chunk rest).consumed rest in
      record {
        r = next.r;
        e = next.e;
        returns = next.returns;
        n = (next_chunk rest).consumed + next.n;
        sent = omega (arith, next.sent);
        covered =
            round k rest next.n ((next_chunk rest).consumed + next.n) answered next.covered refl;
        within = omega (arith, next.within, left, within_rest rest);
        complete = λ p. omega (arith, next.complete p, left, within_rest rest);
        placed = next.placed;
      }

  -- The end of a round, given what holds of the rounds after it.
  settle-Outcome :
      (k offset total : ℕ) (rest : List Bytes) (noted : Response)
      (next : Response → Option (Response × Option PostError)) (chunk : List Bytes)
      (posted : Posted)
      → (next_chunk rest).chunk ≡ chunk
      → post_chunk json (send k) chunk ≡ posted
      → offset + length chunk ≤ total
      → noted.sent ≡ offset
      → All (IsPlaced total) noted.dropped
      → ((r : Response)
          → r.sent ≡ offset + (next_chunk rest).consumed
          → All (IsPlaced total) r.dropped
          → Outcome
              (k + 1)
              (offset + (next_chunk rest).consumed)
              total
              (drop (next_chunk rest).consumed rest)
              (next r))
      → Outcome k offset total rest (
          settle json expired send next
            (offset + (next_chunk rest).consumed)
            offset
            rest
            noted
            chunk
            posted)
  settle-Outcome k offset total rest noted next [] posted c p room at placed onward =
      go_on (inl c)
        (onward (record noted { sent = offset + (next_chunk rest).consumed }) refl placed)
  settle-Outcome k offset total rest noted next (x ∷ xs) (delivered body) c p room at placed
        onward =
      go_on (rw c (inr (body, p)))
        (onward (merge_ok json (offset + (next_chunk rest).consumed) body noted) refl placed)
  settle-Outcome k offset total rest noted next (x ∷ xs) (stopped err) c p room at placed onward =
      stop_here k offset total rest
        (record noted { dropped = noted.dropped ++ named_by json offset rest (x ∷ xs) err }) err at
        (All-append (IsPlaced total) noted.dropped _ placed
          (named-IsPlaced offset total rest (x ∷ xs) err room))

  post_loop-Outcome :
      (fuel k offset total : ℕ) (rest : List Bytes) (result : Response)
      → length rest < fuel
      → offset + length rest ≡ total
      → result.sent ≡ offset
      → All (IsPlaced total) result.dropped
      → Outcome k offset total rest (post_loop json expired send fuel k offset rest result)
  unfolding post_loop
  post_loop-Outcome zero k offset total rest result h t at placed = absurd (omega arith)
  post_loop-Outcome (suc fuel) k offset total [] result h t at placed = record {
    r = result;
    e = none;
    returns = refl;
    n = 0;
    sent = omega arith;
    covered = here k [];
    within = omega arith;
    complete = λ p. refl;
    placed = placed;
  }
  post_loop-Outcome (suc fuel) k offset total (e ∷ es) result h t at placed =
      let rest = e ∷ es in
      let c = next_chunk rest in
      let s = next_chunk-Splits rest in
      let some_taken : 0 < c.consumed = s.progress (omega arith) in
      let left : length (drop c.consumed rest) ≡ length rest - c.consumed =
        length-drop c.consumed rest in
      let noted = record_oversized json expired send offset rest c result in
      let noted_placed : All (IsPlaced total) noted.dropped =
        All-append (IsPlaced total) result.dropped _ placed (
          rw (s.oversized) (
            oversized-IsPlaced offset total (length s.skipped) 0 rest
              (omega (arith, s.consumed, within_rest rest)))) in
      elim (Bool-cases (expired k)) [
        | inl late ↦
            rw late
              (stop_here k offset total rest result (status (status_error timeout 0)) at placed)
        | inr early ↦ rw early (
            settle-Outcome k offset total rest noted _ c.chunk (post_chunk json (send k) c.chunk)
              refl refl (omega (arith, s.consumed, within_rest rest)) at noted_placed
              (λ r sent' placed'.
                post_loop-Outcome fuel (k + 1) (offset + c.consumed) total (drop c.consumed rest) r
                  (omega arith) (omega (arith, within_rest rest)) sent' placed'))
      ]

  -- `PostEvents` always returns. The first `Sent` events are those of consecutive rounds that the
  -- relay answered with a success or that held only oversized events; without an error they are
  -- all of the events; and every dropped event's index is that of one of the events.
  pub post_events-Delivered :
      (events : List Bytes)
      → (r : Response) × (e : Option PostError) × (post_events json expired send events
          ≡ some (r, e))
        × Delivered 0 events r.sent
        × (r.sent ≤ length events)
        × (e ≡ none → r.sent ≡ length events)
        × All (IsPlaced (length events)) r.dropped
  unfolding post_events
  post_events-Delivered events =
      let o =
        post_loop-Outcome (suc (length events)) 0 0 (length events) events empty_response
          (omega arith) (omega arith) refl tt in
      let at : o.r.sent ≡ o.n = omega (arith, o.sent) in
      (
        o.r,
        o.e,
        o.returns,
        rw at o.covered,
        omega (arith, o.within),
        λ p. at ∙ o.complete p,
        o.placed,
      )
