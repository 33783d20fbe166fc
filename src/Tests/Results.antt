-- ===== src/Tests/Results.antt =====
-- Runs of internal/classify/verify_result.go.
use agentpulse_bridge.Base.{
  ◌+◌, ◌-◌, ◌^◌, ◌≡◌, refl, false, ◌&&◌, none, some, [], ◌∷◌, str_eq, ltb, leb, if◌then◌else◌,
  arith,
}
use agentpulse_bridge.Base.Text.{Text, codes, atoi, pos, negsuc, max_int}
use agentpulse_bridge.Classify.Env.{Regexp}
use agentpulse_bridge.Classify.Event.{fail, jest}
use agentpulse_bridge.Classify.Results.{
  finalize_counts, outcome_only, with_counts, jest_pattern, parse_result, executed,
}
use agentpulse_bridge.Classify.Results.Counts.{finalize_counts_lem}
use agentpulse_bridge.Classify.Results.Runs.{HasShortCounts, parse_result-IsSound}
use agentpulse_bridge.Classify.Results.Sound.{IsSound}

-- An engine that finds what Jest prints, in any text.
abbrev jest_engine : Regexp
jest_engine = record {
  is_match = λ p t. false;
  find = λ p t.
      if str_eq p jest_pattern
      then some (t ∷ codes "1" ∷ [] ∷ codes "4" ∷ codes "5" ∷ [])
      else none;
  find_all = λ p t. [];
}

abbrev output : Text
output = codes "Tests: 1 failed, 4 passed, 5 total"

jest_runs : parse_result jest_engine jest false output ≡ with_counts fail (pos 4) (pos 1) (pos 5)
unfolding parse_result atoi
jest_runs = refl

output-HasShortCounts : HasShortCounts jest_engine output
output-HasShortCounts = record {
  passed = tt;
  failed = tt;
  errors = tt;
  passing = tt;
  failing = tt;
  jest_counts = ((refl, omega arith), ((refl, omega arith), ((refl, omega arith), tt)));
  vitest_counts = tt;
  cargo_counts = tt;
  executed_counts = tt;
  go_passes = omega arith;
  go_failures = omega arith;
}

parse_result-IsSound_example : IsSound (parse_result jest_engine jest false output)
parse_result-IsSound_example =
    parse_result-IsSound jest_engine output output-HasShortCounts jest false

-- The sum of two counts that each fit may wrap.
wrapped_total :
    finalize_counts fail (pos max_int) (pos 1) none
    ≡ with_counts fail (pos max_int) (pos 1) (negsuc max_int)
unfolding finalize_counts
wrapped_total = refl

-- More failures than tests: the counts are dropped.
executed_runs : executed (some (pos 2)) (some (pos 3)) ≡ outcome_only fail
unfolding executed
executed_runs = refl

finalize_counts_lem_example :
    (finalize_counts fail (pos max_int) (pos 1) none
      ≡ with_counts fail (pos max_int) (pos 1) (
          if leb (max_int + 1) max_int
          then pos (max_int + 1)
          else negsuc (2 ^ 64 - 1 - (max_int + 1))))
    × (finalize_counts fail (pos max_int) (pos 1) (some (pos 7)) ≡ (
        if leb (max_int + 1) max_int && ltb 7 (max_int + 1)
        then outcome_only fail
        else with_counts fail (pos max_int) (pos 1) (pos 7)))
finalize_counts_lem_example = finalize_counts_lem fail max_int 1 7 (omega arith) (omega arith)
