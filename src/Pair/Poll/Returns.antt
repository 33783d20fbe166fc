-- ===== src/Pair/Poll/Returns.antt =====
-- internal/pair/poll.go: the loop ends, and why.
use agentpulse_bridge.Base.{ℕ, zero, suc, ◌+◌, ◌-◌, ◌≤◌, ◌≡◌, ◌⊎◌, true, Option, some}
use agentpulse_bridge.Relay.Types.{unauthorized}
use agentpulse_bridge.Pair.Poll.{
  paired, status_error, Polled, device, cancelled, expired, rejected, Turn, PollOptions, Next, stop,
  wait_for, poll_interval, judge_answer, or_default, shorter,
}

-- The times of the turns when the loop starts at `first`.
module _ (opts : PollOptions) (turns : ℕ → Turn) (first : ℕ) where
  abbrev waited : Next → ℕ
  waited (stop result) = 0
  waited (wait_for wait) = wait

  -- The clock as it is read for the grace, and for what remains, in turn `k` that starts at `t`.
  abbrev pub judged_at : ℕ → ℕ → ℕ
  judged_at k t = t + (turns k).request_time + (turns k).judge_time

  abbrev pub measured_at : ℕ → ℕ → ℕ
  measured_at k t = judged_at k t + (turns k).measure_time

  abbrev slept_until : ℕ → ℕ → ℕ → ℕ
  slept_until k t wait =
      measured_at k t + shorter opts (opts.deadline - measured_at k t) wait + (turns k).oversleep

  -- When turn `k` starts, if it is reached.
  abbrev pub starts_at : ℕ → ℕ
  starts_at zero = first
  starts_at (suc k) =
      slept_until k (starts_at k)
        (waited (judge_answer opts (turns k).answer (judged_at k (starts_at k))))

  -- Why a result is returned: a turn's answer names the phone; it is a 401, and the time at which it
  -- is judged is past the grace; the caller has cancelled; or the deadline is reached.
  abbrev pub IsJustified : Polled → Type 0
  IsJustified (device name) = (j : ℕ) × ((turns j).answer ≡ paired name)
  IsJustified rejected =
      (j : ℕ) × (retry_after : Option ℕ) × ((turns j).answer
        ≡ status_error unauthorized retry_after)
      × (opts.start + or_default opts opts.auth_grace 60000000000 ≤ judged_at j (starts_at j))
  IsJustified cancelled = (j : ℕ) × (((turns j).is_over ≡ true) ⊎ ((turns j).is_interrupted ≡ true))
  IsJustified expired = (j : ℕ) × (opts.deadline ≤ measured_at j (starts_at j))

  -- What one turn's answer means: a justified end, or a wait of at least the interval.
  abbrev IsNext : ℕ → Next → Type 0
  IsNext k (stop result) = IsJustified result
  IsNext k (wait_for wait) = poll_interval opts ≤ wait

  abbrev Ends : Option Polled → Type 0
  Ends result = (r : Polled) × (result ≡ some r) × IsJustified r
