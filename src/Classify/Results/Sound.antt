-- ===== src/Classify/Results/Sound.antt =====
-- internal/classify/verify_result.go: the counts of a result, for every runner.
use agentpulse_bridge.Base.{
  ℕ, ◌+◌, ◌-◌, ◌≤◌, ◌<◌, ◌≡◌, refl, ap, sym, subst, ◌∙◌, inl, inr, ◌⊎◌, Bool, true, false, Option,
  none, some, ltb, leb, if◌then◌else◌, Bool-cases, arith, le→leb, ltb→le, ◌*◌, ◌^◌,
}
use agentpulse_bridge.Base.Text.{ℤ, pos, negsuc, max_int}
use agentpulse_bridge.Base.Ints.{◌+ℤ◌, ◌-ℤ◌, int_lt, sum_lem, difference_lem}
use agentpulse_bridge.Classify.Event.{Outcome, unknown, VerificationResult}
use agentpulse_bridge.Classify.Results.{
  outcome_only, with_counts, finalize_counts, fail_if, counted, counted_of, add_counts, nonnegative,
  executed,
}
use agentpulse_bridge.Classify.Results.Counts.{finalize_counts_lem}
use agentpulse_bridge.Classify.Results.Digits.{IsBelow, limit}

-- A result has an outcome alone, or it passed or failed with all three counts, none below zero and
-- the total no less than the two others together.
abbrev pub IsSound : VerificationResult → Type 0
IsSound r =
    ((o : Outcome) × (r ≡ outcome_only o))
    ⊎ ((failing : Bool) × (p : ℕ) × (f : ℕ) × (t : ℕ) × (r
          ≡ with_counts (fail_if failing) (pos p) (pos f) (pos t))
        × (p + f ≤ t))

by_test : {A : Type 0} {b : Bool} {x : A} (y : A) → b ≡ true → (if b then x else y) ≡ x
by_test y h = rw h

by_other : {A : Type 0} {b : Bool} {y : A} (x : A) → b ≡ false → (if b then x else y) ≡ y
by_other x h = rw h

pub derived-IsSound :
    (failing : Bool) (p f : ℕ)
    → p < 2 * limit
    → f < 2 * limit
    → IsSound (finalize_counts (fail_if failing) (pos p) (pos f) none)
derived-IsSound failing p f hp hf = inr (
  failing,
  p,
  f,
  p + f,
  (finalize_counts_lem (fail_if failing) p f 0 (omega arith) (omega arith)).0
      ∙ rw (le→leb (p + f) max_int (omega arith)),
  omega arith,
)

captured-IsSound :
    (failing : Bool) (p f t : ℕ)
    → p < 2 * limit
    → f < 2 * limit
    → IsSound (finalize_counts (fail_if failing) (pos p) (pos f) (some (pos t)))
captured-IsSound failing p f t hp hf =
    let kept : finalize_counts (fail_if failing) (pos p) (pos f) (some (pos t)) ≡ (
        if ltb t (p + f)
        then outcome_only (fail_if failing)
        else with_counts (fail_if failing) (pos p) (pos f) (pos t)) =
      (finalize_counts_lem (fail_if failing) p f t (omega arith) (omega arith)).1
      ∙ rw (le→leb (p + f) max_int (omega arith)) in
    elim (Bool-cases (ltb t (p + f))) [
      | inl small ↦ inl (fail_if failing, kept ∙ rw small)
      | inr large ↦ inr (failing, p, f, t, kept ∙ rw large, ltb→le t (p + f) large)
    ]

pub below_twice : (c : Option ℤ) → IsBelow limit c → IsBelow (2 * limit) c
below_twice none h = tt
below_twice (some (pos n)) h = omega (arith, h)
below_twice (some (negsuc n)) h = h

pub add_counts-IsBelow :
    (a b : Option ℤ) → IsBelow limit a → IsBelow limit b → IsBelow (2 * limit) (add_counts a b)
add_counts-IsBelow none b ha hb = tt
add_counts-IsBelow (some a) none ha hb = tt
add_counts-IsBelow (some (negsuc a)) (some b) ha hb = absurd ha
add_counts-IsBelow (some (pos a)) (some (negsuc b)) ha hb = absurd hb
add_counts-IsBelow (some (pos a)) (some (pos b)) ha hb =
    let sum : (pos a +ℤ pos b) ≡ pos (a + b) =
      sum_lem a b (omega (arith, ha)) (omega (arith, hb))
      ∙ by_test (negsuc (2 ^ 64 - 1 - (a + b))) (le→leb (a + b) max_int (omega (arith, ha, hb))) in
    subst (λ (c : ℤ). IsBelow (2 * limit) (some c)) (sym sum) (omega (arith, ha, hb))

pub counted-IsSound :
    (failing : Bool) (p f : Option ℤ)
    → IsBelow (2 * limit) p
    → IsBelow (2 * limit) f
    → IsSound (counted (fail_if failing) p f)
unfolding counted
counted-IsSound failing none f hp hf = inl (fail_if failing, refl)
counted-IsSound failing (some p) none hp hf = inl (fail_if failing, refl)
counted-IsSound failing (some (negsuc p)) (some f) hp hf = absurd hp
counted-IsSound failing (some (pos p)) (some (negsuc f)) hp hf = absurd hf
counted-IsSound failing (some (pos p)) (some (pos f)) hp hf = derived-IsSound failing p f hp hf

pub counted_of-IsSound :
    (failing : Bool) (f p t : Option ℤ)
    → IsBelow (2 * limit) f
    → IsBelow (2 * limit) p
    → IsBelow (2 * limit) t
    → IsSound (counted_of (fail_if failing) f p t)
unfolding counted_of
counted_of-IsSound failing none p t hf hp ht = inl (fail_if failing, refl)
counted_of-IsSound failing (some f) none t hf hp ht = inl (fail_if failing, refl)
counted_of-IsSound failing (some f) (some p) none hf hp ht = inl (fail_if failing, refl)
counted_of-IsSound failing (some (negsuc f)) (some p) (some t) hf hp ht = absurd hf
counted_of-IsSound failing (some (pos f)) (some (negsuc p)) (some t) hf hp ht = absurd hp
counted_of-IsSound failing (some (pos f)) (some (pos p)) (some (negsuc t)) hf hp ht = absurd ht
counted_of-IsSound failing (some (pos f)) (some (pos p)) (some (pos t)) hf hp ht =
    captured-IsSound failing p f t hp hf

passed_of_executed :
    (t f : ℕ)
    → t < 2 * limit
    → f < 2 * limit
    → (p : ℕ) × (nonnegative (pos t -ℤ pos f) ≡ pos p) × (p < 2 * limit)
passed_of_executed t f ht hf = elim (Bool-cases (leb f t)) [
  | inl le ↦ (
    t - f,
    ap nonnegative
        (difference_lem t f (omega arith) (omega arith) ∙ by_test (negsuc (f - t - 1)) le),
    omega arith,
  )
  | inr gt ↦ (
    0,
    ap nonnegative (difference_lem t f (omega arith) (omega arith) ∙ by_other (pos (t - f)) gt),
    omega arith,
  )
]

pub executed-IsSound :
    (t f : Option ℤ) → IsBelow (2 * limit) t → IsBelow (2 * limit) f → IsSound (executed t f)
unfolding executed
executed-IsSound none f ht hf = inl (unknown, refl)
executed-IsSound (some t) none ht hf = inl (unknown, refl)
executed-IsSound (some (negsuc t)) (some f) ht hf = absurd ht
executed-IsSound (some (pos t)) (some (negsuc f)) ht hf = absurd hf
executed-IsSound (some (pos t)) (some (pos f)) ht hf =
    let (p, is_passed, below) = passed_of_executed t f ht hf in
    subst
      (λ (c : ℤ).
        IsSound (finalize_counts (fail_if (int_lt (pos 0) (pos f))) c (pos f) (some (pos t))))
      (sym is_passed) (captured-IsSound (int_lt (pos 0) (pos f)) p f t below hf)
