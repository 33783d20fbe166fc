-- ===== src/Flush/Loop/Returns.antt =====
-- cmd/agentpulse/flush.go: the loop of `runFlush` comes to an end by itself, before its budget does.
use agentpulse_bridge.Base.{
  ℕ, zero, suc, ◌+◌, ◌-◌, ◌≤◌, ◌<◌, ◌≡◌, ◌≢◌, refl, subst, ◌⊎◌, inl, inr, Bool, true, false, Option,
  none, some, String, List, [], ◌∷◌, arith, if◌then◌else◌, length, get_elem?, All, Bool-cases,
  Option-cases, Bytes,
}
use mathlib.Core.Bool.{false≢true}
use agentpulse_bridge.Relay.Types.{Response, PostError, status, encoding, StatusError, Kind}
use agentpulse_bridge.Relay.Client.Delivery.{IsPlaced, post_events-Delivered}
use agentpulse_bridge.Flush.Types.{
  Progress, Turn, Outcome, unauthorized, server_error, network_error,
}
use agentpulse_bridge.Flush.Waits.{within_pairing_grace, backoff_schedule}
use agentpulse_bridge.Flush.Loop.{
  Formats, Judged, judge, answer, absorb, wait_for_retry, take_turn, settle, flush_loop,
}
use agentpulse_bridge.Flush.Loop.Weight.{weight}
use agentpulse_bridge.Flush.Loop.Shrinks.{IsEvent, weight-lines_after}

-- The waits that are left.
abbrev pub slack : Progress → ℕ
slack p = (3 - p.retry_attempt) + (5 - p.rate_limit_retries)

-- What another turn costs: an event was dropped, or a wait is used up.
record Spends (r : Response) (p q : Progress) : Type 0 where
  pub same : q.cur ≡ p.cur
  pub cost : (r.dropped ≢ []) × (slack q ≡ slack p) ⊎ (slack q < slack p)

-- The outcome does not count.
aside :
    {o : Outcome} {q : Progress} (r : Response) (p : Progress)
    → Spends r (record p { outcome = o }) q
    → Spends r p q
aside r p s = record { same = s.same; cost = s.cost }

scheduled : (n d : ℕ) → get_elem? backoff_schedule n ≡ some d → n < 3
scheduled zero d h = omega arith
scheduled (suc zero) d h = omega arith
scheduled (suc (suc zero)) d h = omega arith
scheduled (suc (suc (suc n))) d h = cc

by_test :
    (P : Option Progress → Type 0) (b : Bool) (x y : Option Progress)
    → P x
    → P y
    → P (if b then x else y)
by_test P true x y h k = h
by_test P false x y h k = k

module _ (formats : Formats) (paired_at : String) where
  abbrev Costs : Response → Progress → Judged → Type 0
  Costs r p j = j.1 ≡ true → Spends r p j.0

  wait-Costs :
      (t : Turn) (r : Response) (p : Progress) → Costs r p (wait_for_retry formats paired_at t p)
  wait-Costs t r p = elim (Option-cases (get_elem? backoff_schedule p.retry_attempt)) [
    | inl exhausted ↦ rw exhausted (λ h. absurd (false≢true h))
    | inr (d, step) ↦
        let few = scheduled p.retry_attempt d step in
        rw step (λ h. (record { same = refl; cost = inr (omega (arith, few)) }))
  ]

  answer-Costs :
      (k : Kind) (t : Turn) (r : Response) (se : StatusError) (p : Progress)
      → Costs r p (answer formats paired_at k t r se p)
  answer-Costs Kind.bad_request t r se p = ground arith
  answer-Costs Kind.unauthorized t r se p =
      let refused = record p { outcome = unauthorized } in
      elim (Bool-cases (within_pairing_grace formats.parse paired_at t.answered_at)) [
        | inr late ↦ rw late (λ h. absurd (false≢true h))
        | inl grace ↦ rw grace (elim (Bool-cases (wait_for_retry formats paired_at t refused).1) [
          | inl more ↦ rw more (λ _. aside r p (wait-Costs t r refused more))
          | inr no_more ↦ rw no_more (λ h. absurd (false≢true h))
        ])
      ]
  answer-Costs Kind.rate_limited t r se p = ground arith
  answer-Costs Kind.server_error t r se p =
      λ a. aside r p (wait-Costs t r (record p { outcome = server_error }) a)
  answer-Costs Kind.network t r se p =
      λ a. aside r p (wait-Costs t r (record p { outcome = network_error }) a)
  answer-Costs Kind.timeout t r se p =
      λ a. aside r p (wait-Costs t r (record p { outcome = network_error }) a)
  answer-Costs Kind.unknown t r se p = λ h. absurd (false≢true h)

  judge-Costs :
      (t : Turn) (r : Response) (e : Option PostError) (p : Progress)
      → Costs r p (judge formats paired_at t r e p)
  unfolding judge
  judge-Costs t r none p = λ h. absurd (false≢true h)
  judge-Costs t r (some encoding) p = λ h. absurd (false≢true h)
  judge-Costs t r (some (status se)) p = λ a.
      (let s = answer-Costs se.kind t r se (record p { http_status = se.status_code }) a in
        record { same = s.same; cost = s.cost })

  abbrev Events : List Bytes → Type 0
  Events ls = All (IsEvent formats.fields) ls

  abbrev pub fuel_for : Progress → ℕ
  fuel_for p = weight p.cur + slack p

  -- A turn that asks for another one leaves less.
  turn-fuel_for :
      (t : Turn) (r : Response) (e : Option PostError) (p : Progress)
      → 0 < length p.cur
      → r.sent ≤ length p.cur
      → All (IsPlaced (length p.cur)) r.dropped
      → Events p.cur
      → let j = judge formats paired_at t r e (absorb formats paired_at t r p) in
        j.1 ≡ true → (fuel_for j.0 < fuel_for p) × Events j.0.cur
  unfolding absorb
  turn-fuel_for t r e p some_left sent placed events again =
      let p' = absorb formats paired_at t r p in
      let s = judge-Costs t r e p' again in
      let (le, lt, still) =
        weight-lines_after formats paired_at p.cur r some_left sent placed events in
      (
        rw s.same (elim s.cost [
          | inl (some_dropped, same) ↦ omega (arith, lt some_dropped, same)
          | inr less ↦ omega (arith, le, less)
        ]),
        rw s.same still,
      )

  module _ (turns : ℕ → Turn) where
    abbrev Returns : Option Progress → Type 0
    Returns o = (q : Progress) × (o ≡ some q)

    settle-Returns :
        (next : Progress → Option Progress) (t : Turn) (p : Progress)
        (o : Option (Response × Option PostError)) (r : Response) (e : Option PostError)
        → o ≡ some (r, e)
        → let j = judge formats paired_at t r e (absorb formats paired_at t r p) in
          (j.1 ≡ true → Returns (next j.0)) → Returns (settle formats paired_at next t p o)
    settle-Returns next t p o r e here goes_on =
        let j = judge formats paired_at t r e (absorb formats paired_at t r p) in
        rw here (elim (Bool-cases j.1) [
          | inl again ↦ rw again (goes_on again)
          | inr done ↦ rw done (_, refl)
        ])

    turn-Returns :
        (next : Progress → Option Progress) (t : Turn) (p : Progress) (ls : List Bytes)
        → p.cur ≡ ls
        → Events p.cur
        → ((q : Progress) → fuel_for q < fuel_for p → Events q.cur → Returns (next q))
        → Returns (take_turn formats paired_at next t p ls)
    turn-Returns next t p [] same events goes_on = (p, refl)
    turn-Returns next t p (l ∷ ls) same events goes_on =
        let (r, e, posted, delivered, sent, complete, placed) =
          post_events-Delivered formats.codec t.expired t.send (l ∷ ls) in
        by_test Returns t.is_over _ _ (_, refl)
          (settle-Returns next t p _ r e posted (λ again.
            (let (less, still) =
                turn-fuel_for t r e p (rw same (omega arith)) (rw same sent) (rw same placed) events
                  again in
              goes_on _ less still)))

    last-Returns :
        (next : Progress → Option Progress) (t : Turn) (p : Progress) (ls : List Bytes)
        → t.is_over ≡ true
        → Returns (take_turn formats paired_at next t p ls)
    last-Returns next t p [] over = (p, refl)
    last-Returns next t p (l ∷ ls) over = rw over (_, refl)

    any-Returns :
        (next : Progress → Option Progress) (t : Turn) (p : Progress) (ls : List Bytes)
        → ((q : Progress) → Returns (next q))
        → Returns (take_turn formats paired_at next t p ls)
    any-Returns next t p [] goes_on = (p, refl)
    any-Returns next t p (l ∷ ls) goes_on =
        let (r, e, posted, delivered, sent, complete, placed) =
          post_events-Delivered formats.codec t.expired t.send (l ∷ ls) in
        by_test Returns t.is_over _ _ (_, refl)
          (settle-Returns next t p _ r e posted (λ again. goes_on _))

    -- The loop of `runFlush` returns after at most as many turns as there are lines to send, those
    -- that carry `subagent` counted twice, with eight more for its waits, whatever the relay answers,
    -- if each line that holds the bytes `"subagent"` is an object that encoded without its `subagent`
    -- field does not hold them any more.
    pub flush_loop-Returns :
        (fuel k : ℕ) (p : Progress)
        → fuel_for p < fuel
        → Events p.cur
        → Returns (flush_loop formats paired_at fuel turns k p)
    unfolding flush_loop
    flush_loop-Returns zero k p h events = absurd (omega arith)
    flush_loop-Returns (suc fuel) k p h events =
        turn-Returns (λ q. flush_loop formats paired_at fuel turns (k + 1) q) (turns k) p p.cur refl
          events (λ q less still. flush_loop-Returns fuel (k + 1) q (omega (arith, less)) still)

    -- A turn that the context is over for ends the loop, and so it ends, with the spool's lines still
    -- to be sent or not, no later than that turn.
    pub flush_loop-cut_off :
        (n fuel k : ℕ) (p : Progress)
        → n < fuel
        → (turns (k + n)).is_over ≡ true
        → Returns (flush_loop formats paired_at fuel turns k p)
    unfolding flush_loop
    flush_loop-cut_off n zero k p h over = absurd (omega arith)
    flush_loop-cut_off zero (suc fuel) k p h over =
        last-Returns (λ q. flush_loop formats paired_at fuel turns (k + 1) q) (turns k) p p.cur
          (subst (λ (j : ℕ). (turns j).is_over ≡ true) (omega arith) over)
    flush_loop-cut_off (suc n) (suc fuel) k p h over =
        any-Returns (λ q. flush_loop formats paired_at fuel turns (k + 1) q) (turns k) p p.cur
          (λ q.
            flush_loop-cut_off n fuel (k + 1) q (omega arith)
              (subst (λ (j : ℕ). (turns j).is_over ≡ true) (omega arith) over))
