-- ===== src/Classify/Results.antt =====
-- internal/classify/verify_result.go: what a verification's output says. A Go `int` is `ℤ`, and its sum
-- wraps at 64 bits.
pub mod Counts
pub mod Digits
pub mod Sound
pub mod Runs
use agentpulse_bridge.Base.{
  ℕ, zero, suc, ◌+◌, ◌-◌, ◌%◌, ◌^◌, Bool, true, false, ◌&&◌, ◌||◌, not, Option, none, some, String,
  List, [], ◌∷◌, ◌==◌, ltb, leb, if◌then◌else◌, get_elem?, last?, length,
}
use agentpulse_bridge.Base.Text.{Text, ℤ, pos, negsuc, atoi, codes, same_text}
use agentpulse_bridge.Base.Ints.{◌+ℤ◌, ◌-ℤ◌, int_lt}
use agentpulse_bridge.Classify.Env.{Regexp}
use agentpulse_bridge.Classify.Event.{
  Outcome, pass, fail, unknown, VerificationResult, Runner, pytest, jest, vitest, mocha, npm, go,
  cargo, swift, xcodebuild, build,
}

abbrev pub outcome_only : Outcome → VerificationResult
outcome_only o = record { outcome = o; passed = none; failed = none; total = none }

abbrev pub with_counts : Outcome → ℤ → ℤ → ℤ → VerificationResult
with_counts o p f t = record { outcome = o; passed = some p; failed = some f; total = some t }

unfoldable pub finalize_counts : Outcome → ℤ → ℤ → Option ℤ → VerificationResult
finalize_counts o p f none = with_counts o p f (p +ℤ f)
finalize_counts o p f (some t) = if int_lt t (p +ℤ f) then outcome_only o else with_counts o p f t

-- A group of a match; the engine gives as many as the pattern has.
abbrev pub text_or_empty : Option Text → Text
text_or_empty none = []
text_or_empty (some s) = s

abbrev pub group : List Text → ℕ → Text
group m i = text_or_empty (get_elem? m i)

-- `findCount`: whether the pattern was found, and the count if it can be trusted.
abbrev pub count_in : Option (List Text) → Bool × Option ℤ
count_in none = (false, some (pos 0))
count_in (some m) = (true, atoi (group m 1))

-- `parseGroup`: `none` is a text that does not parse.
unfoldable pub parse_group : Text → Option ℤ
parse_group [] = some (pos 0)
parse_group (c ∷ s) = atoi (c ∷ s)

abbrev pub fail_if : Bool → Outcome
fail_if failed = if failed then fail else pass

abbrev pub pass_if : Bool → Outcome
pass_if passed = if passed then pass else fail

-- The counts that parsed, with a total if there is one to parse; else the outcome alone.
unfoldable pub counted : Outcome → Option ℤ → Option ℤ → VerificationResult
unfolding finalize_counts
counted o none failed = outcome_only o
counted o (some p) none = outcome_only o
counted o (some p) (some f) = finalize_counts o p f none

unfoldable pub counted_of : Outcome → Option ℤ → Option ℤ → Option ℤ → VerificationResult
unfolding finalize_counts
counted_of o none passed total = outcome_only o
counted_of o (some f) none total = outcome_only o
counted_of o (some f) (some p) none = outcome_only o
counted_of o (some f) (some p) (some t) = finalize_counts o p f (some t)

abbrev pub add_counts : Option ℤ → Option ℤ → Option ℤ
add_counts none b = none
add_counts (some a) none = none
add_counts (some a) (some b) = some (a +ℤ b)

abbrev pub is_digits_empty : Text → Bool
is_digits_empty [] = true
is_digits_empty (c ∷ s) = false

abbrev pub is_unknown : VerificationResult → Bool
is_unknown r = elim r.outcome [ unknown ↦ true | _ ↦ false ]

-- The first result that is not unknown.
abbrev pub first_known : List VerificationResult → VerificationResult
first_known [] = outcome_only unknown
first_known (r ∷ rs) = if is_unknown r then first_known rs else r

-- The match decides by its groups; without one the outcome is unknown.
abbrev pub of_match : Option (List Text) → (List Text → VerificationResult) → VerificationResult
of_match none read = outcome_only unknown
of_match (some m) read = read m

abbrev pub nonnegative : ℤ → ℤ
nonnegative (pos n) = pos n
nonnegative (negsuc n) = pos 0

-- `parseExecuted` of a match: the total and the failures.
unfoldable pub executed : Option ℤ → Option ℤ → VerificationResult
unfolding finalize_counts
executed none failed = outcome_only unknown
executed (some t) none = outcome_only unknown
executed (some t) (some f) =
    finalize_counts (fail_if (int_lt (pos 0) f)) (nonnegative (t -ℤ f)) f (some t)

abbrev pub jest_pattern : String
jest_pattern = "Tests:\\s+(?:(\\d+) failed, )?(?:(\\d+) skipped, )?(\\d+) passed, (\\d+) total"

abbrev pub vitest_pattern : String
vitest_pattern = "Tests\\s+(?:(\\d+) failed \\| )?(\\d+) passed \\((\\d+)\\)"

abbrev pub cargo_pattern : String
cargo_pattern = "test result: (ok|FAILED)\\. (\\d+) passed; (\\d+) failed"

abbrev pub executed_pattern : String
executed_pattern = "Executed (\\d+) tests?, with (\\d+) failures?"

module _ (regexp : Regexp) where
  open regexp use {is_match, find, find_all}

  unfoldable pub find_count : String → Text → Bool × Option ℤ
  find_count pattern output = count_in (find pattern output)

  abbrev pub pytest_result :
      Bool × Option ℤ → Bool × Option ℤ → Bool × Option ℤ → VerificationResult
  pytest_result (has_passed, passed) (has_failed, failed) (has_error, errors) =
      if has_passed || has_failed || has_error
      then counted (fail_if (has_failed || has_error)) passed (add_counts failed errors)
      else outcome_only unknown

  unfoldable pub parse_pytest : Text → VerificationResult
  unfolding find_count counted
  parse_pytest output =
      pytest_result (find_count "\\b(\\d+) passed\\b" output)
        (find_count "\\b(\\d+) failed\\b" output) (find_count "\\b(\\d+) errors?\\b" output)

  unfoldable pub parse_jest : Text → VerificationResult
  unfolding counted_of parse_group
  parse_jest output = of_match (find jest_pattern output) (λ m.
      counted_of (fail_if (not (is_digits_empty (group m 1)))) (parse_group (group m 1))
        (parse_group (group m 3)) (parse_group (group m 4)))

  unfoldable pub parse_vitest : Text → VerificationResult
  unfolding counted_of parse_group
  parse_vitest output = of_match (find vitest_pattern output) (λ m.
      counted_of (fail_if (not (is_digits_empty (group m 1)))) (parse_group (group m 1))
        (parse_group (group m 2)) (parse_group (group m 3)))

  abbrev pub mocha_result : Bool × Option ℤ → Bool × Option ℤ → VerificationResult
  mocha_result (has_passing, passed) (has_failing, failed) =
      if has_passing || has_failing
      then counted (fail_if has_failing) passed failed
      else outcome_only unknown

  unfoldable pub parse_mocha : Text → VerificationResult
  unfolding find_count counted
  parse_mocha output =
      mocha_result (find_count "\\b(\\d+) passing\\b" output)
        (find_count "\\b(\\d+) failing\\b" output)

  unfoldable pub parse_npm : Text → VerificationResult
  unfolding parse_pytest parse_jest parse_vitest parse_mocha
  parse_npm output =
      first_known
        (parse_pytest output ∷ parse_jest output ∷ parse_vitest output ∷ parse_mocha output ∷ [])

  -- The number of matches is an int by itself.
  abbrev pub go_counts : Outcome → ℕ → ℕ → VerificationResult
  go_counts o passed failed =
      if passed == 0 && failed == 0
      then outcome_only o
      else finalize_counts o (pos passed) (pos failed) none

  abbrev pub go_result : Outcome → Bool → Text → VerificationResult
  go_result o verbose output =
      if verbose
      then go_counts o (length (find_all "--- PASS:" output)) (length (find_all "--- FAIL:" output))
      else outcome_only o

  unfoldable pub parse_go : Text → Bool → VerificationResult
  unfolding finalize_counts
  parse_go output verbose =
      if is_match "(?m)^FAIL(\\s|$)" output
      then go_result fail verbose output
      else if is_match "(?m)^ok(\\s|$)" output
      then go_result pass verbose output
      else outcome_only unknown

  unfoldable pub parse_cargo : Text → VerificationResult
  unfolding counted parse_group
  parse_cargo output = of_match (find cargo_pattern output) (λ m.
      counted (pass_if (same_text (group m 1) (codes "ok"))) (parse_group (group m 2))
        (parse_group (group m 3)))

  unfoldable pub parse_executed : Text → VerificationResult
  unfolding executed parse_group
  parse_executed output =
      of_match (last? (find_all executed_pattern output))
        (λ m. executed (parse_group (group m 1)) (parse_group (group m 2)))

  unfoldable pub test_marker : Text → VerificationResult
  test_marker output =
      of_match (find "\\*\\* TEST (SUCCEEDED|FAILED) \\*\\*" output)
        (λ m. outcome_only (pass_if (same_text (group m 1) (codes "SUCCEEDED"))))

  unfoldable pub parse_xcodebuild : Text → VerificationResult
  unfolding parse_executed test_marker
  parse_xcodebuild output = first_known (parse_executed output ∷ test_marker output ∷ [])

  unfoldable pub parse_build : Text → VerificationResult
  parse_build output =
      if is_match "BUILD FAILED" output
      then outcome_only fail
      else if is_match "BUILD SUCCEEDED" output
      then outcome_only pass
      else if is_match "(?im)^.*\\berror\\b.*$" output
      then outcome_only fail
      else outcome_only unknown

  unfoldable pub parse_result : Runner → Bool → Text → VerificationResult
  unfolding parse_pytest parse_jest parse_vitest parse_mocha parse_npm parse_go parse_cargo
      parse_executed parse_xcodebuild parse_build
  parse_result pytest verbose output = parse_pytest output
  parse_result jest verbose output = parse_jest output
  parse_result vitest verbose output = parse_vitest output
  parse_result mocha verbose output = parse_mocha output
  parse_result npm verbose output = parse_npm output
  parse_result go verbose output = parse_go output verbose
  parse_result cargo verbose output = parse_cargo output
  parse_result swift verbose output = parse_executed output
  parse_result xcodebuild verbose output = parse_xcodebuild output
  parse_result build verbose output = parse_build output
