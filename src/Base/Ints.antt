-- ===== src/Base/Ints.antt =====
-- Sums and differences of a Go `int`, which wrap at 64 bits.
use Prim.Native.Nat.{ℕ, ◌+◌, ◌-◌, ◌%◌, ◌^◌, ◌≤◌, ◌<◌}
use mathlib.Core.Path.{◌≡◌, refl}
use mathlib.Core.Bool.{Bool, true, false}
use native.Mathlib.Omega.{arith}
use agentpulse_bridge.Base.Tests.{ltb, leb, if◌then◌else◌}
use agentpulse_bridge.Base.Text.{ℤ, pos, negsuc, max_int}

abbrev pub word_of : ℤ → ℕ
word_of (pos n) = n % 2 ^ 64
word_of (negsuc n) = (2 ^ 64 - 1 - n) % 2 ^ 64

abbrev pub of_word : ℕ → ℤ
of_word w = if leb w max_int then pos w else negsuc (2 ^ 64 - 1 - w)

infixl 40 ◌+ℤ◌ ◌-ℤ◌
abbrev pub ◌+ℤ◌ : ℤ → ℤ → ℤ
a +ℤ b = of_word ((word_of a + word_of b) % 2 ^ 64)

abbrev pub ◌-ℤ◌ : ℤ → ℤ → ℤ
a -ℤ b = of_word ((word_of a + 2 ^ 64 - word_of b) % 2 ^ 64)

-- `<` of two ints
abbrev pub int_lt : ℤ → ℤ → Bool
int_lt (pos a) (pos b) = ltb a b
int_lt (pos a) (negsuc b) = false
int_lt (negsuc a) (pos b) = true
int_lt (negsuc a) (negsuc b) = ltb b a

abbrev pub IsLess : ℤ → ℤ → Type 0
IsLess (pos a) (pos b) = a < b
IsLess (pos a) (negsuc b) = ⊥
IsLess (negsuc a) (pos b) = Unit
IsLess (negsuc a) (negsuc b) = b < a

pub int_lt→IsLess : (a b : ℤ) → int_lt a b ≡ true → IsLess a b
int_lt→IsLess (pos a) (pos b) h = ground (arith, h)
int_lt→IsLess (pos a) (negsuc b) h = cc
int_lt→IsLess (negsuc a) (pos b) h = tt
int_lt→IsLess (negsuc a) (negsuc b) h = ground (arith, h)

pub IsLess→int_lt : (a b : ℤ) → IsLess a b → int_lt a b ≡ true
IsLess→int_lt (pos a) (pos b) h = ground (arith, h)
IsLess→int_lt (pos a) (negsuc b) h = absurd h
IsLess→int_lt (negsuc a) (pos b) h = refl
IsLess→int_lt (negsuc a) (negsuc b) h = ground (arith, h)

-- The sum of two ints that are not negative: below zero if it does not fit.
pub sum_lem :
    (a b : ℕ)
    → a ≤ max_int
    → b ≤ max_int
    → (pos a +ℤ pos b)
      ≡ (if leb (a + b) max_int then pos (a + b) else negsuc (2 ^ 64 - 1 - (a + b)))
sum_lem a b ha hb = ground arith

pub difference_lem :
    (a b : ℕ)
    → a ≤ max_int
    → b ≤ max_int
    → (pos a -ℤ pos b) ≡ (if leb b a then pos (a - b) else negsuc (b - a - 1))
difference_lem a b ha hb = ground arith
