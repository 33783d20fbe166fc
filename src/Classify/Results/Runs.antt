-- ===== src/Classify/Results/Runs.antt =====
-- internal/classify/verify_result.go: the result for each runner, where the counts in the output are
-- short.
use agentpulse_bridge.Base.{
  ℕ, ◌*◌, ◌<◌, ◌≡◌, refl, sym, subst, inl, inr, Bool, true, false, ◌&&◌, ◌||◌, not, Option, none,
  some, List, [], ◌∷◌, ◌==◌, if◌then◌else◌, Bool-cases, arith, length, last?, All,
}
use agentpulse_bridge.Base.Text.{Text, ℤ, pos, same_text, codes}
use agentpulse_bridge.Classify.Env.{Regexp}
use agentpulse_bridge.Classify.Event.{
  Outcome, pass, fail, unknown, VerificationResult, Runner, pytest, jest, vitest, mocha, npm, go,
  cargo, swift, xcodebuild, build,
}
use agentpulse_bridge.Classify.Results.{
  outcome_only, finalize_counts, group, count_in, fail_if, pass_if, add_counts, is_digits_empty,
  is_unknown, first_known, of_match, pytest_result, parse_pytest, jest_pattern, parse_jest,
  vitest_pattern, parse_vitest, mocha_result, parse_mocha, parse_npm, go_result, parse_go,
  cargo_pattern, parse_cargo, executed_pattern, parse_executed, test_marker, parse_xcodebuild,
  parse_build, parse_result, find_count, parse_group, counted,
}
use agentpulse_bridge.Classify.Results.Digits.{
  IsCount, IsBelow, limit, atoi-IsBelow, parse_group-IsBelow,
}
use agentpulse_bridge.Classify.Results.Sound.{
  IsSound, below_twice, add_counts-IsBelow, counted-IsSound, counted_of-IsSound, executed-IsSound,
  derived-IsSound,
}

-- The groups of a match that are counts.
abbrev pub HasCounts : Option (List Text) → List ℕ → Type 0
HasCounts none groups = Unit
HasCounts (some m) groups = All (λ (i : ℕ). IsCount (group m i)) groups

-- The groups that the patterns write as runs of digits are counts of at most eighteen digits.
pub record HasShortCounts (regexp : Regexp) (output : Text) : Type 0 where
  pub passed : HasCounts (regexp.find "\\b(\\d+) passed\\b" output) (1 ∷ [])
  pub failed : HasCounts (regexp.find "\\b(\\d+) failed\\b" output) (1 ∷ [])
  pub errors : HasCounts (regexp.find "\\b(\\d+) errors?\\b" output) (1 ∷ [])
  pub passing : HasCounts (regexp.find "\\b(\\d+) passing\\b" output) (1 ∷ [])
  pub failing : HasCounts (regexp.find "\\b(\\d+) failing\\b" output) (1 ∷ [])
  pub jest_counts : HasCounts (regexp.find jest_pattern output) (1 ∷ 3 ∷ 4 ∷ [])
  pub vitest_counts : HasCounts (regexp.find vitest_pattern output) (1 ∷ 2 ∷ 3 ∷ [])
  pub cargo_counts : HasCounts (regexp.find cargo_pattern output) (2 ∷ 3 ∷ [])
  pub executed_counts : HasCounts (last? (regexp.find_all executed_pattern output)) (1 ∷ 2 ∷ [])
  pub go_passes : length (regexp.find_all "--- PASS:" output) < limit
  pub go_failures : length (regexp.find_all "--- FAIL:" output) < limit

alone : (o : Outcome) → IsSound (outcome_only o)
alone o = inl (o, refl)

below : (s : Text) → IsCount s → IsBelow (2 * limit) (parse_group s)
below s h = below_twice (parse_group s) (parse_group-IsBelow s h)

pass_if-fail_if : (b : Bool) → pass_if b ≡ fail_if (not b)
pass_if-fail_if true = refl
pass_if-fail_if false = refl

of_match-IsSound :
    (found : Option (List Text)) (groups : List ℕ) (read : List Text → VerificationResult)
    → HasCounts found groups
    → ((m : List Text) → All (λ (i : ℕ). IsCount (group m i)) groups → IsSound (read m))
    → IsSound (of_match found read)
of_match-IsSound none groups read h sound = alone unknown
of_match-IsSound (some m) groups read h sound = sound m h

first_known-IsSound : (rs : List VerificationResult) → All IsSound rs → IsSound (first_known rs)
first_known-IsSound [] h = alone unknown
first_known-IsSound (r ∷ rs) h = elim (Bool-cases (is_unknown r)) [
  | inl skip ↦ rw skip (first_known-IsSound rs h.1)
  | inr known ↦ rw known (h.0)
]

if-IsSound :
    (b : Bool) (r s : VerificationResult) → IsSound r → IsSound s → IsSound (if b then r else s)
if-IsSound true r s hr hs = hr
if-IsSound false r s hr hs = hs

no_counts : (found : Option (List Text)) → HasCounts found []
no_counts none = tt
no_counts (some m) = tt

count_in-IsBelow :
    (found : Option (List Text)) → HasCounts found (1 ∷ []) → IsBelow limit (count_in found).1
count_in-IsBelow none h = omega arith
count_in-IsBelow (some m) h = atoi-IsBelow (group m 1) h.0

pytest_result-IsSound :
    (regexp : Regexp) (p f e : Bool × Option ℤ)
    → IsBelow limit p.1
    → IsBelow limit f.1
    → IsBelow limit e.1
    → IsSound (pytest_result regexp p f e)
pytest_result-IsSound regexp (p, passed) (f, failed) (e, errors) hp hf he =
    if-IsSound (p || f || e) (counted (fail_if (f || e)) passed (add_counts failed errors))
      (outcome_only unknown)
      (counted-IsSound (f || e) passed (add_counts failed errors) (below_twice passed hp)
        (add_counts-IsBelow failed errors hf he))
      (alone unknown)

mocha_result-IsSound :
    (regexp : Regexp) (p f : Bool × Option ℤ)
    → IsBelow limit p.1
    → IsBelow limit f.1
    → IsSound (mocha_result regexp p f)
mocha_result-IsSound regexp (p, passed) (f, failed) hp hf =
    if-IsSound (p || f) (counted (fail_if f) passed failed) (outcome_only unknown)
      (counted-IsSound f passed failed (below_twice passed hp) (below_twice failed hf))
      (alone unknown)

module _ (regexp : Regexp) (output : Text) (h : HasShortCounts regexp output) where
  parse_pytest-IsSound : IsSound (parse_pytest regexp output)
  unfolding parse_pytest find_count
  parse_pytest-IsSound =
      pytest_result-IsSound regexp (find_count regexp "\\b(\\d+) passed\\b" output)
        (find_count regexp "\\b(\\d+) failed\\b" output)
        (find_count regexp "\\b(\\d+) errors?\\b" output)
        (count_in-IsBelow (regexp.find "\\b(\\d+) passed\\b" output) h.passed)
        (count_in-IsBelow (regexp.find "\\b(\\d+) failed\\b" output) h.failed)
        (count_in-IsBelow (regexp.find "\\b(\\d+) errors?\\b" output) h.errors)

  parse_jest-IsSound : IsSound (parse_jest regexp output)
  unfolding parse_jest
  parse_jest-IsSound =
      of_match-IsSound (regexp.find jest_pattern output) (1 ∷ 3 ∷ 4 ∷ []) _ h.jest_counts
        (λ m (failed, (passed, (total, rest))).
          counted_of-IsSound (not (is_digits_empty (group m 1))) (parse_group (group m 1))
            (parse_group (group m 3)) (parse_group (group m 4)) (below (group m 1) failed)
            (below (group m 3) passed) (below (group m 4) total))

  parse_vitest-IsSound : IsSound (parse_vitest regexp output)
  unfolding parse_vitest
  parse_vitest-IsSound =
      of_match-IsSound (regexp.find vitest_pattern output) (1 ∷ 2 ∷ 3 ∷ []) _ h.vitest_counts
        (λ m (failed, (passed, (total, rest))).
          counted_of-IsSound (not (is_digits_empty (group m 1))) (parse_group (group m 1))
            (parse_group (group m 2)) (parse_group (group m 3)) (below (group m 1) failed)
            (below (group m 2) passed) (below (group m 3) total))

  parse_mocha-IsSound : IsSound (parse_mocha regexp output)
  unfolding parse_mocha find_count
  parse_mocha-IsSound =
      mocha_result-IsSound regexp (find_count regexp "\\b(\\d+) passing\\b" output)
        (find_count regexp "\\b(\\d+) failing\\b" output)
        (count_in-IsBelow (regexp.find "\\b(\\d+) passing\\b" output) h.passing)
        (count_in-IsBelow (regexp.find "\\b(\\d+) failing\\b" output) h.failing)

  parse_npm-IsSound : IsSound (parse_npm regexp output)
  unfolding parse_npm
  parse_npm-IsSound =
      first_known-IsSound
        (parse_pytest regexp output
          ∷ parse_jest regexp output
          ∷ parse_vitest regexp output
          ∷ parse_mocha regexp output
          ∷ [])
        (
          parse_pytest-IsSound,
          (parse_jest-IsSound, (parse_vitest-IsSound, (parse_mocha-IsSound, tt))),
        )

  go_result-IsSound :
      (failing verbose : Bool) → IsSound (go_result regexp (fail_if failing) verbose output)
  go_result-IsSound failing false = alone (fail_if failing)
  go_result-IsSound failing true =
      let passed = length (regexp.find_all "--- PASS:" output) in
      let failed = length (regexp.find_all "--- FAIL:" output) in
      if-IsSound (passed == 0 && failed == 0) (outcome_only (fail_if failing))
        (finalize_counts (fail_if failing) (pos passed) (pos failed) none) (alone (fail_if failing))
        (derived-IsSound failing passed failed (omega (arith, h.go_passes))
          (omega (arith, h.go_failures)))

  parse_go-IsSound : (verbose : Bool) → IsSound (parse_go regexp output verbose)
  unfolding parse_go
  parse_go-IsSound verbose =
      if-IsSound (regexp.is_match "(?m)^FAIL(\\s|$)" output) (go_result regexp fail verbose output)
        (if regexp.is_match "(?m)^ok(\\s|$)" output
          then go_result regexp pass verbose output
          else outcome_only unknown)
        (go_result-IsSound true verbose)
        (if-IsSound (regexp.is_match "(?m)^ok(\\s|$)" output) (go_result regexp pass verbose output)
          (outcome_only unknown) (go_result-IsSound false verbose) (alone unknown))

  parse_cargo-IsSound : IsSound (parse_cargo regexp output)
  unfolding parse_cargo
  parse_cargo-IsSound =
      of_match-IsSound (regexp.find cargo_pattern output) (2 ∷ 3 ∷ []) _ h.cargo_counts
        (λ m (passed, (failed, rest)).
          subst
            (λ (o : Outcome).
              IsSound (counted o (parse_group (group m 2)) (parse_group (group m 3))))
            (sym (pass_if-fail_if (same_text (group m 1) (codes "ok"))))
            (counted-IsSound (not (same_text (group m 1) (codes "ok"))) (parse_group (group m 2))
              (parse_group (group m 3)) (below (group m 2) passed) (below (group m 3) failed)))

  parse_executed-IsSound : IsSound (parse_executed regexp output)
  unfolding parse_executed
  parse_executed-IsSound =
      of_match-IsSound (last? (regexp.find_all executed_pattern output)) (1 ∷ 2 ∷ []) _
        h.executed_counts
        (λ m (total, (failed, rest)).
          executed-IsSound (parse_group (group m 1)) (parse_group (group m 2))
            (below (group m 1) total) (below (group m 2) failed))

  test_marker-IsSound : IsSound (test_marker regexp output)
  unfolding test_marker
  test_marker-IsSound =
      of_match-IsSound (regexp.find "\\*\\* TEST (SUCCEEDED|FAILED) \\*\\*" output) [] _
        (no_counts _) (λ m none_needed. alone (pass_if (same_text (group m 1) (codes "SUCCEEDED"))))

  parse_xcodebuild-IsSound : IsSound (parse_xcodebuild regexp output)
  unfolding parse_xcodebuild
  parse_xcodebuild-IsSound =
      first_known-IsSound (parse_executed regexp output ∷ test_marker regexp output ∷ [])
        (parse_executed-IsSound, (test_marker-IsSound, tt))

  abbrev by_errors : VerificationResult
  by_errors =
      if regexp.is_match "(?im)^.*\\berror\\b.*$" output
      then outcome_only fail
      else outcome_only unknown

  parse_build-IsSound : IsSound (parse_build regexp output)
  unfolding parse_build
  parse_build-IsSound =
      if-IsSound (regexp.is_match "BUILD FAILED" output) (outcome_only fail)
        (if regexp.is_match "BUILD SUCCEEDED" output then outcome_only pass else by_errors)
        (alone fail)
        (if-IsSound (regexp.is_match "BUILD SUCCEEDED" output) (outcome_only pass) by_errors
          (alone pass)
          (if-IsSound (regexp.is_match "(?im)^.*\\berror\\b.*$" output) (outcome_only fail)
            (outcome_only unknown) (alone fail) (alone unknown)))

  -- Where no count in the output has more than eighteen digits, the result for every runner has an
  -- outcome alone, or it passed or failed with all three counts, none below zero and the total no
  -- less than the two others together.
  pub parse_result-IsSound :
      (runner : Runner) (verbose : Bool) → IsSound (parse_result regexp runner verbose output)
  unfolding parse_result
  parse_result-IsSound pytest verbose = parse_pytest-IsSound
  parse_result-IsSound jest verbose = parse_jest-IsSound
  parse_result-IsSound vitest verbose = parse_vitest-IsSound
  parse_result-IsSound mocha verbose = parse_mocha-IsSound
  parse_result-IsSound npm verbose = parse_npm-IsSound
  parse_result-IsSound go verbose = parse_go-IsSound verbose
  parse_result-IsSound cargo verbose = parse_cargo-IsSound
  parse_result-IsSound swift verbose = parse_executed-IsSound
  parse_result-IsSound xcodebuild verbose = parse_xcodebuild-IsSound
  parse_result-IsSound build verbose = parse_build-IsSound
