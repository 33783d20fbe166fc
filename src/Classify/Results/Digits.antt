-- ===== src/Classify/Results/Digits.antt =====
-- internal/classify/verify_result.go: counts of at most eighteen digits are read as they are.
use mathlib.Core.Bool.{false≢true}
use mathlib.Core.Option.{some-injective}
use agentpulse_bridge.Base.{
  ℕ, zero, suc, ◌+◌, ◌-◌, ◌*◌, ◌≤◌, ◌<◌, ◌≡◌, refl, inl, inr, Bool, true, false, ◌&&◌, Option, none,
  some, [], ◌∷◌, leb, ◌==◌, Bool-cases, arith, length,
}
use agentpulse_bridge.Base.Text.{
  Text, ℤ, pos, negsuc, max_int, is_digit, digits_value, in_int_range, atoi,
}
use agentpulse_bridge.Classify.Results.{parse_group}

abbrev pub all_digits : Text → Bool
all_digits [] = true
all_digits (c ∷ s) = is_digit c && all_digits s

-- A group that takes no part in its match, or a count that fits an int with room to spare.
abbrev pub IsCount : Text → Type 0
IsCount s = (all_digits s ≡ true) × (length s ≤ 18)

abbrev pub limit : ℕ
limit = 1000000000000000000

-- A count that was read is not negative and below a bound.
abbrev pub IsBelow : ℕ → Option ℤ → Type 0
IsBelow bound none = Unit
IsBelow bound (some (pos n)) = n < bound
IsBelow bound (some (negsuc n)) = ⊥

-- The powers of ten.
tens : ℕ → ℕ
tens zero = 1
tens (suc k) = 10 * tens k

digit_value : (c : ℕ) → is_digit c ≡ true → c - b'0' ≤ 9
digit_value c h = ground arith

below_next : (n d v t : ℕ) → d ≤ 9 → v < (n * 10 + d + 1) * t → v < (n + 1) * (10 * t)
below_next n d v t hd hv = grind arith

digits_value-lt :
    (s : Text) (n v : ℕ)
    → all_digits s ≡ true
    → digits_value n s ≡ some v
    → v < (n + 1) * tens (length s)
unfolding tens
digits_value-lt [] n v h e = omega (arith, some-injective _ _ e)
digits_value-lt (c ∷ s) n v h e = elim (Bool-cases (is_digit c)) [
  | inl digit ↦
      let further = digits_value-lt s (n * 10 + (c - b'0')) v (rw digit at h) (rw digit at e) in
      below_next n (c - b'0') v (tens (length s)) (digit_value c digit) further
  | inr other ↦ absurd (false≢true (rw other at h))
]

tens-le : (k m : ℕ) → k ≤ m → tens k ≤ tens m
unfolding tens
tens-le zero zero h = omega arith
tens-le zero (suc m) h = omega (arith, tens-le zero m (omega arith))
tens-le (suc k) zero h = absurd (omega arith)
tens-le (suc k) (suc m) h = omega (arith, tens-le k m (omega arith))

count_value-lt : (s : Text) (v : ℕ) → IsCount s → digits_value 0 s ≡ some v → v < limit
unfolding tens
count_value-lt s v (digits, short) e =
    omega (arith, digits_value-lt s 0 v digits e, tens-le (length s) 18 short)

value-IsBelow :
    (o : Option ℕ) → ((n : ℕ) → o ≡ some n → n < limit) → IsBelow limit (in_int_range false o)
value-IsBelow none h = tt
value-IsBelow (some n) h = elim (Bool-cases (leb n max_int)) [
  | inl fits ↦ rw fits (h n refl)
  | inr wide ↦ rw wide tt
]

no_sign : (c : ℕ) → is_digit c ≡ true → ((c == b'-') ≡ false) × ((c == b'+') ≡ false)
no_sign c h = (ground arith, ground arith)

pub atoi-IsBelow : (s : Text) → IsCount s → IsBelow limit (atoi s)
unfolding atoi
atoi-IsBelow [] h = tt
atoi-IsBelow (c ∷ s) (digits, short) = elim (Bool-cases (is_digit c)) [
  | inl digit ↦
      let (minus, plus) = no_sign c digit in
      rw (minus, plus)
        (value-IsBelow (digits_value 0 (c ∷ s)) (λ n e. count_value-lt (c ∷ s) n (digits, short) e))
  | inr other ↦ absurd (false≢true (rw other at digits))
]

pub parse_group-IsBelow : (s : Text) → IsCount s → IsBelow limit (parse_group s)
unfolding parse_group
parse_group-IsBelow [] h = omega arith
parse_group-IsBelow (c ∷ s) h = atoi-IsBelow (c ∷ s) h
