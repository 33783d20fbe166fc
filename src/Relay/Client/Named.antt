-- ===== src/Relay/Client/Named.antt =====
-- internal/relay/client.go: the event that `PostEvents` drops for a 400 is the one that the relay named.
use agentpulse_bridge.Base.{
  ℕ, zero, suc, ◌+◌, ◌≤◌, ◌<◌, ◌≡◌, refl, ap, sym, subst, ◌∙◌, inl, inr, Bool, Option, none, some,
  List, [], ◌∷◌, ◌++◌, arith, lt→ltb, length, get_elem?, drop, drop-nil, All, All-drop,
  append_assoc, Bool-cases, Bytes,
}
use agentpulse_bridge.Relay.Types.{
  Response, empty_response, DroppedEvent, PostError, status, encoding, StatusError, status_error,
  bad_request, timeout,
}
use agentpulse_bridge.Relay.Chunk.{next_chunk, max_chunk_bytes}
use agentpulse_bridge.Relay.Chunk.Bounds.{indices}
use agentpulse_bridge.Relay.Chunk.Split.{next_chunk-Splits}
use agentpulse_bridge.Relay.Client.{
  Codec, HttpResult, Posted, delivered, stopped, post_chunk, post_loop, post_events, merge_ok,
  named_by, settle, record_oversized,
}

abbrev pub Fits : Bytes → Type 0
Fits b = length b ≤ max_chunk_bytes

-- No event is oversized, so none is in front of the chunk.
none_skipped :
    (skipped more rest : List Bytes)
    → rest ≡ skipped ++ more
    → All Fits rest
    → All (λ e. max_chunk_bytes < length e) skipped
    → skipped ≡ []
none_skipped [] more rest whole fit big = refl
none_skipped (x ∷ xs) more rest whole fit big =
    let head : Fits x = (subst (All Fits) whole fit).0 in absurd (omega (arith, head, big.0))

get_elem?-some : (l : List Bytes) (i : ℕ) (b : Bytes) → get_elem? l i ≡ some b → i < length l
get_elem?-some [] i b h = cc
get_elem?-some (x ∷ xs) zero b h = omega arith
get_elem?-some (x ∷ xs) (suc i) b h = omega (arith, get_elem?-some xs i b h)

get_elem?-append :
    (xs ys : List Bytes) (i : ℕ) (b : Bytes)
    → get_elem? xs i ≡ some b
    → get_elem? (xs ++ ys) i ≡ some b
get_elem?-append [] ys i b h = cc
get_elem?-append (x ∷ xs) ys zero b h = h
get_elem?-append (x ∷ xs) ys (suc i) b h = get_elem?-append xs ys i b h

get_elem?-drop : (n m i : ℕ) (l : List Bytes) → m ≡ n + i → get_elem? l m ≡ get_elem? (drop n l) i
get_elem?-drop zero m i l e = ap (λ (j : ℕ). get_elem? l j) (omega arith)
get_elem?-drop (suc n) m i [] e = refl
get_elem?-drop (suc n) zero i (x ∷ xs) e = absurd (omega arith)
get_elem?-drop (suc n) (suc m) i (x ∷ xs) e = get_elem?-drop n m i xs (omega arith)

drop-drop : (n m k : ℕ) (l : List Bytes) → k ≡ n + m → drop m (drop n l) ≡ drop k l
drop-drop zero m k l e = ap (λ (j : ℕ). drop j l) (omega arith)
drop-drop (suc n) m k [] e = drop-nil m ∙ sym (drop-nil k)
drop-drop (suc n) m zero (x ∷ xs) e = absurd (omega arith)
drop-drop (suc n) m (suc k) (x ∷ xs) e = drop-drop n m k xs (omega arith)

module _ (json : Codec) (expired : ℕ → Bool) (send : ℕ → List Bytes → HttpResult)
    (events : List Bytes) (e : StatusError) where
  -- What is dropped for a refusal of a chunk: the event of `events` that it named, with its type and
  -- the field that the relay did not know, and nothing if it named none of the chunk's.
  abbrev pub Drops : List Bytes → List DroppedEvent → Type 0
  Drops chunk dropped =
      ((i : ℕ) (b : Bytes)
        → e.event_index ≡ some i
        → get_elem? chunk i ≡ some b
        → (d : DroppedEvent) × (dropped ≡ d ∷ [])
          × (get_elem? events d.index ≡ some b)
          × (d.event_type ≡ json.type_of b)
          × (d.unexpected_field ≡ e.unexpected_field))
      × ((i : ℕ) → e.event_index ≡ some i → length chunk ≤ i → dropped ≡ [])
      × (e.event_index ≡ none → dropped ≡ [])

  -- The refusal is the relay's answer to a chunk of some round.
  abbrev pub IsNamed : Response → Type 0
  IsNamed r =
      (k : ℕ) × (chunk : List Bytes) × (post_chunk json (send k) chunk ≡ stopped (status e))
      × Drops chunk r.dropped

  named_by-Drops :
      (offset : ℕ) (rest chunk more : List Bytes)
      → e.kind ≡ bad_request
      → rest ≡ drop offset events
      → rest ≡ chunk ++ more
      → Drops chunk (named_by json offset rest chunk (status e))
  unfolding named_by
  named_by-Drops offset rest chunk more bad at whole = (
    λ i b named inside.
        (let here : get_elem? rest i ≡ some b =
            ap (λ (l : List Bytes). get_elem? l i) whole ∙ get_elem?-append chunk more i b inside in
          let there : get_elem? events (offset + i) ≡ some b =
            get_elem?-drop offset (offset + i) i events refl
            ∙ (ap (λ (l : List Bytes). get_elem? l i) (sym at) ∙ here) in
          rw (bad, named, lt→ltb i (length chunk) (get_elem?-some chunk i b inside))
            (_, refl, there, rw here refl, refl)),
    λ i named outside. rw (bad, named) (ground arith),
    λ unnamed. rw (bad, unnamed) refl,
  )

  abbrev dropped_of : Option (Response × Option PostError) → List DroppedEvent
  dropped_of none = []
  dropped_of (some (r, err)) = r.dropped

  abbrev error_of : Option (Response × Option PostError) → StatusError
  error_of (some (r, some (status x))) = x
  error_of _ = e

  settle-IsNamed :
      (r : Response) (next : Response → Option (Response × Option PostError)) (k sent offset : ℕ)
      (rest more : List Bytes) (noted : Response) (chunk : List Bytes) (posted : Posted)
      → post_chunk json (send k) chunk ≡ posted
      → e.kind ≡ bad_request
      → noted.dropped ≡ []
      → rest ≡ drop offset events
      → rest ≡ chunk ++ more
      → ((noted' : Response)
          → noted'.dropped ≡ []
          → next noted' ≡ some (r, some (status e))
          → IsNamed r)
      → settle json expired send next sent offset rest noted chunk posted
        ≡ some (r, some (status e))
      → IsNamed r
  settle-IsNamed r next k sent offset rest more noted [] posted p bad quiet at whole onward h =
      onward (record noted { sent = sent }) quiet h
  settle-IsNamed r next k sent offset rest more noted (x ∷ xs) (delivered body) p bad quiet at whole
        onward h =
      onward (merge_ok json sent body noted) quiet h
  settle-IsNamed r next k sent offset rest more noted (x ∷ xs) (stopped encoding) p bad quiet at
        whole onward h =
      cc
  settle-IsNamed r next k sent offset rest more noted (x ∷ xs) (stopped (status f)) p bad quiet at
        whole onward h =
      let same : f ≡ e = ap error_of h in
      let dropped : r.dropped ≡ named_by json offset rest (x ∷ xs) (status e) =
        sym (ap dropped_of h)
        ∙ ap (λ (l : List DroppedEvent). l ++ named_by json offset rest (x ∷ xs) (status f)) quiet
        ∙ ap (λ (g : StatusError). named_by json offset rest (x ∷ xs) (status g)) same in
      (
        k,
        x ∷ xs,
        p ∙ ap (λ (g : StatusError). stopped (status g)) same,
        subst (Drops (x ∷ xs)) (sym dropped)
            (named_by-Drops offset rest (x ∷ xs) more bad at whole),
      )

  post_loop-IsNamed :
      (r : Response) (fuel k offset : ℕ) (rest : List Bytes) (result : Response)
      → e.kind ≡ bad_request
      → All Fits rest
      → result.dropped ≡ []
      → rest ≡ drop offset events
      → post_loop json expired send fuel k offset rest result ≡ some (r, some (status e))
      → IsNamed r
  unfolding post_loop
  post_loop-IsNamed r zero k offset rest result bad fit quiet at h = cc
  post_loop-IsNamed r (suc fuel) k offset [] result bad fit quiet at h = cc
  post_loop-IsNamed r (suc fuel) k offset (x ∷ xs) result bad fit quiet at h =
      let rest = x ∷ xs in
      let c = next_chunk rest in
      let s = next_chunk-Splits rest in
      let front : s.skipped ≡ [] =
        none_skipped s.skipped (c.chunk ++ s.rest) rest
          (s.whole ∙ append_assoc s.skipped c.chunk s.rest) fit s.too_big in
      let none_oversized : c.oversized ≡ [] =
        s.oversized ∙ ap (λ (l : List Bytes). indices (length l) 0) front in
      let whole : rest ≡ c.chunk ++ s.rest =
        s.whole ∙ ap (λ (l : List Bytes). (l ++ c.chunk) ++ s.rest) front in
      elim (Bool-cases (expired k)) [
        | inl late ↦
            let same : status_error timeout 0 ≡ e = ap error_of (rw late at h) in
            let kinds : timeout ≡ bad_request = ap (λ (g : StatusError). g.kind) same ∙ bad in cc
        | inr early ↦
            settle-IsNamed r _ k (offset + c.consumed) offset rest s.rest
              (record_oversized json expired send offset rest c result) c.chunk
              (post_chunk json (send k) c.chunk) refl bad (rw (quiet, none_oversized) refl) at whole
              (λ noted' quiet' h'.
                post_loop-IsNamed r fuel (k + 1) (offset + c.consumed) (drop c.consumed rest) noted'
                  bad (All-drop Fits c.consumed rest fit) quiet'
                  (ap (λ (l : List Bytes). drop c.consumed l) at
                    ∙ drop-drop offset c.consumed (offset + c.consumed) events refl)
                  h')
              (rw early at h)
      ]

  -- Where no event is oversized, as with the spool's lines: if PostEvents ends with a 400, that is
  -- the relay's answer to a chunk that it sent. If the answer names an event of the chunk, then
  -- exactly that event is reported as dropped, by its index among all the events and with its type
  -- and the field that the relay did not know; if it names none of the chunk's, nothing is.
  pub post_events-IsNamed :
      (r : Response)
      → All Fits events
      → e.kind ≡ bad_request
      → post_events json expired send events ≡ some (r, some (status e))
      → IsNamed r
  unfolding post_events
  post_events-IsNamed r fit bad h =
      post_loop-IsNamed r (suc (length events)) 0 0 events empty_response bad fit refl refl h
