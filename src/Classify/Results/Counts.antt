-- ===== src/Classify/Results/Counts.antt =====
-- internal/classify/verify_result.go: `finalizeCounts` and the sums of counts.
use agentpulse_bridge.Base.{
  ℕ, ◌+◌, ◌-◌, ◌^◌, ◌≤◌, ◌≡◌, ap, inl, inr, ◌&&◌, none, some, ltb, leb, if◌then◌else◌, Bool-cases,
}
use agentpulse_bridge.Base.Text.{pos, negsuc, max_int}
use agentpulse_bridge.Base.Ints.{sum_lem}
use agentpulse_bridge.Classify.Event.{Outcome}
use agentpulse_bridge.Classify.Results.{outcome_only, with_counts, finalize_counts}

-- For counts that are ints and not negative: a total that was not captured is their sum, or the sum
-- less 2^64 where that does not fit; a captured total is kept with the counts, and all three are
-- dropped if it is smaller than a sum that fits.
pub finalize_counts_lem :
    (o : Outcome) (passed failed total : ℕ)
    → passed ≤ max_int
    → failed ≤ max_int
    → (finalize_counts o (pos passed) (pos failed) none
        ≡ with_counts o (pos passed) (pos failed) (
            if leb (passed + failed) max_int
            then pos (passed + failed)
            else negsuc (2 ^ 64 - 1 - (passed + failed))))
      × (finalize_counts o (pos passed) (pos failed) (some (pos total)) ≡ (
          if leb (passed + failed) max_int && ltb total (passed + failed)
          then outcome_only o
          else with_counts o (pos passed) (pos failed) (pos total)))
unfolding finalize_counts
finalize_counts_lem o passed failed total hp hf = (
  ap (with_counts o (pos passed) (pos failed)) (sum_lem passed failed hp hf),
  rw (sum_lem passed failed hp hf) (elim (Bool-cases (leb (passed + failed) max_int)) [
    | inl fits ↦ rw fits
    | inr wraps ↦ rw wraps
  ]),
)
