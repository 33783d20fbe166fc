-- ===== src/Flush/Loop/Strikes.antt =====
-- cmd/agentpulse/flush.go: how the loop of `runFlush` counts refusals and when it unpairs.
use agentpulse_bridge.Base.{
  ℕ, zero, suc, ◌+◌, ◌≤◌, ◌≡◌, ◌⊎◌, refl, inl, inr, Bool, true, false, Option, none, some, String,
  List, [], ◌∷◌, arith, leb, leb→le, if◌then◌else◌, get_elem?, Bool-cases, Option-cases, Bytes,
}
use mathlib.Core.Bool.{false≢true}
use agentpulse_bridge.Relay.Types.{Response, PostError, status, encoding, StatusError, Kind}
use agentpulse_bridge.Relay.Client.{post_events}
use agentpulse_bridge.Flush.Types.{
  Outcome, State, Progress, Turn, unauthorized, rate_limited, server_error, network_error,
}
use agentpulse_bridge.Flush.Waits.{backoff_schedule, rate_limit_wait, within_pairing_grace}
use agentpulse_bridge.Flush.Loop.{
  Formats, Judged, judge, answer, absorb, wait_for_retry, take_turn, settle, finish, flush_loop,
  unpaired_by_phone, strike, or_cut_off, obey_limit,
}

-- No refusal was counted in this run, which started at `s`.
pub record IsQuiet (s : State) (p : Progress) : Type 0 where
  pub is_kept : p.is_cleared ≡ false
  pub reason : p.state.unpaired_reason ≡ s.unpaired_reason
  pub count : p.state.consecutive_401 ≤ s.consecutive_401

-- At most one was; if it was the third in a row at least, the credential may be gone and the reason
-- is on record.
pub record IsStruck (s : State) (p : Progress) : Type 0 where
  pub count : p.state.consecutive_401 ≤ s.consecutive_401 + 1
  pub cases :
      (3 ≤ p.state.consecutive_401) × (p.state.unpaired_reason ≡ unpaired_by_phone)
      ⊎ (p.is_cleared ≡ false) × (p.state.unpaired_reason ≡ s.unpaired_reason)

quiet-IsStruck : (s : State) (p : Progress) → IsQuiet s p → IsStruck s p
quiet-IsStruck s p q = record { count = omega (arith, q.count); cases = inr (q.is_kept, q.reason) }

-- Only the state and the flag count.
aside :
    {s : State} {o : Outcome} (p : Progress) → IsQuiet s p → IsQuiet s (record p { outcome = o })
aside p q = record { is_kept = q.is_kept; reason = q.reason; count = q.count }

module _ (formats : Formats) (paired_at : String) (s : State) where
  abbrev Verdict : Judged → Type 0
  Verdict j = IsStruck s j.0 × (j.1 ≡ true → IsQuiet s j.0)

  quiet-Verdict : (p : Progress) (again : Bool) → IsQuiet s p → Verdict (p, again)
  quiet-Verdict p again q = (quiet-IsStruck s p q, λ _. q)

  absorb-IsQuiet :
      (t : Turn) (r : Response) (p : Progress)
      → IsQuiet s p
      → IsQuiet s (absorb formats paired_at t r p)
  unfolding absorb
  absorb-IsQuiet t r p q = record {
    is_kept = q.is_kept;
    reason = ground (arith, q.reason);
    count = ground (arith, q.count);
  }

  strike-IsStruck :
      (t : Turn) (p : Progress) → IsQuiet s p → IsStruck s (strike formats paired_at t p)
  strike-IsStruck t p q = elim (Bool-cases (leb 3 (p.state.consecutive_401 + 1))) [
    | inl third ↦
        rw third (record { count = omega (arith, q.count); cases = inl (leb→le 3 _ third, refl) })
    | inr fewer ↦
        rw fewer (record { count = omega (arith, q.count); cases = inr (q.is_kept, q.reason) })
  ]

  wait-Verdict :
      (t : Turn) (p : Progress) → IsQuiet s p → Verdict (wait_for_retry formats paired_at t p)
  wait-Verdict t p q = elim (Option-cases (get_elem? backoff_schedule p.retry_attempt)) [
    | inl exhausted ↦ rw exhausted (quiet-Verdict p false q)
    | inr (d, step) ↦
        rw step
          (quiet-Verdict _ _ (record { is_kept = q.is_kept; reason = q.reason; count = q.count }))
  ]

  by_test-Verdict : (b : Bool) (x y : Judged) → Verdict x → Verdict y → Verdict (if b then x else y)
  by_test-Verdict true x y h k = h
  by_test-Verdict false x y h k = k

  cut_off-Verdict : (j : Judged) → Verdict j → Verdict (or_cut_off formats paired_at j)
  cut_off-Verdict (p, true) v = v
  cut_off-Verdict (p, false) v =
      (record { count = v.0.count; cases = v.0.cases }, λ h. absurd (false≢true h))

  -- A wait that the relay asked for counts nothing.
  limit-Verdict :
      (t : Turn) (se : StatusError) (p : Progress)
      → IsQuiet s p
      → Verdict (obey_limit formats paired_at t se p)
  limit-Verdict t se p q = by_test-Verdict _ _ _ (quiet-Verdict _ false (limited _ _)) (
      by_test-Verdict (t.sleeps (rate_limit_wait se)) _ _ (quiet-Verdict _ true (limited _ _))
        (quiet-Verdict _ false (limited _ _)))
    where
      limited :
          (until : String) (n : ℕ)
          → IsQuiet s (record p {
            state = record p.state { rate_limited_until = until };
            rate_limit_retries = n;
          })
      limited until n = record { is_kept = q.is_kept; reason = q.reason; count = q.count }

  answer-Verdict :
      (k : Kind) (t : Turn) (r : Response) (se : StatusError) (p : Progress)
      → IsQuiet s p
      → Verdict (answer formats paired_at k t r se p)
  answer-Verdict Kind.bad_request t r se p q = quiet-Verdict _ _ (record {
    is_kept = q.is_kept;
    reason = ground (arith, q.reason);
    count = ground (arith, q.count);
  })
  answer-Verdict Kind.unauthorized t r se p q =
      let refused = record p { outcome = unauthorized } in
      by_test-Verdict (within_pairing_grace formats.parse paired_at t.answered_at) _ _
        (cut_off-Verdict _ (wait-Verdict t refused (aside p q)))
        (strike-IsStruck t refused (aside p q), λ h. absurd (false≢true h))
  answer-Verdict Kind.rate_limited t r se p q =
      limit-Verdict t se (record p { outcome = rate_limited }) (aside p q)
  answer-Verdict Kind.server_error t r se p q =
      wait-Verdict t (record p { outcome = server_error }) (aside p q)
  answer-Verdict Kind.network t r se p q =
      wait-Verdict t (record p { outcome = network_error }) (aside p q)
  answer-Verdict Kind.timeout t r se p q =
      wait-Verdict t (record p { outcome = network_error }) (aside p q)
  answer-Verdict Kind.unknown t r se p q = quiet-Verdict p false q

  judge-Verdict :
      (t : Turn) (r : Response) (e : Option PostError) (p : Progress)
      → IsQuiet s p
      → Verdict (judge formats paired_at t r e p)
  unfolding judge
  judge-Verdict t r none p q = quiet-Verdict _ false (aside p q)
  judge-Verdict t r (some encoding) p q = quiet-Verdict _ false (aside p q)
  judge-Verdict t r (some (status se)) p q =
      answer-Verdict se.kind t r se (record p { http_status = se.status_code })
        (record { is_kept = q.is_kept; reason = q.reason; count = q.count })

  abbrev pub Ends : Option Progress → Type 0
  Ends none = Unit
  Ends (some p) = IsStruck s p

  finish-Ends :
      (next : Progress → Option Progress) (j : Judged)
      → Verdict j
      → ((q : Progress) → IsQuiet s q → Ends (next q))
      → Ends (finish formats paired_at next j)
  finish-Ends next (p, true) v goes_on = goes_on p (v.1 refl)
  finish-Ends next (p, false) v goes_on = v.0

  settle-Ends :
      (next : Progress → Option Progress) (t : Turn) (p : Progress)
      (o : Option (Response × Option PostError))
      → IsQuiet s p
      → ((q : Progress) → IsQuiet s q → Ends (next q))
      → Ends (settle formats paired_at next t p o)
  settle-Ends next t p none q goes_on = tt
  settle-Ends next t p (some (r, e)) q goes_on =
      finish-Ends next _ (judge-Verdict t r e _ (absorb-IsQuiet t r p q)) goes_on

  by_test : (b : Bool) (x y : Option Progress) → Ends x → Ends y → Ends (if b then x else y)
  by_test true x y h k = h
  by_test false x y h k = k

  turn-Ends :
      (next : Progress → Option Progress) (t : Turn) (p : Progress) (ls : List Bytes)
      → IsQuiet s p
      → ((q : Progress) → IsQuiet s q → Ends (next q))
      → Ends (take_turn formats paired_at next t p ls)
  turn-Ends next t p [] q goes_on = quiet-IsStruck s p q
  turn-Ends next t p (l ∷ ls) q goes_on =
      by_test t.is_over _ _ (quiet-IsStruck s _ (aside p q))
        (settle-Ends next t p (post_events formats.codec t.expired t.send (l ∷ ls)) q goes_on)

  pub flush_loop-Ends :
      (fuel : ℕ) (turns : ℕ → Turn) (k : ℕ) (p : Progress)
      → IsQuiet s p
      → Ends (flush_loop formats paired_at fuel turns k p)
  unfolding flush_loop
  flush_loop-Ends zero turns k p q = tt
  flush_loop-Ends (suc fuel) turns k p q =
      turn-Ends (λ r. flush_loop formats paired_at fuel turns (k + 1) r) (turns k) p p.cur q
        (λ r quiet. flush_loop-Ends fuel turns (k + 1) r quiet)
