-- ===== src/Flush/Waits.antt =====
-- cmd/agentpulse/flush.go: how long a run waits, and until when it may not send.
use agentpulse_bridge.Base.{
  ℕ, ◌+◌, ◌*◌, ◌^◌, ◌≤◌, ◌<◌, ◌≡◌, ◌≢◌, refl, Bool, false, ◌&&◌, Option, none, some, String, List,
  [], ◌∷◌, ltb, leb, str_eq, if◌then◌else◌, arith,
}
use agentpulse_bridge.Relay.Types.{StatusError}
use agentpulse_bridge.Base.Text.{Text, pos, atoi, trim_space}
use agentpulse_bridge.Relay.Detail.{second, parse_retry_after}
use agentpulse_bridge.Flush.Types.{State}

abbrev pub pairing_grace_period : ℕ
pairing_grace_period = 60 * second

abbrev pub backoff_schedule : List ℕ
backoff_schedule = second ∷ 2 * second ∷ 4 * second ∷ []

abbrev pub max_rate_limit_retries : ℕ
max_rate_limit_retries = 5

abbrev pub min_rate_limit_wait : ℕ
min_rate_limit_wait = second

abbrev pub rate_limit_fallback_wait : ℕ
rate_limit_fallback_wait = 30 * second

abbrev pub max_rate_limit_wait : ℕ
max_rate_limit_wait = 10 * 60 * second

-- `min(max(d, minRateLimitWait), maxRateLimitWait)` of the int64 that has these bits: from 2^63 on
-- it is negative, so below the minimum.
abbrev pub clamped : ℕ → ℕ
clamped bits =
    if ltb bits (2 ^ 63)
    then (if ltb bits min_rate_limit_wait
        then min_rate_limit_wait
        else if ltb max_rate_limit_wait bits
        then max_rate_limit_wait
        else bits)
    else min_rate_limit_wait

abbrev pub wait_of : Option ℕ → ℕ
wait_of none = rate_limit_fallback_wait
wait_of (some bits) = clamped bits

unfoldable pub rate_limit_wait : StatusError → ℕ
rate_limit_wait se = wait_of se.retry_after

-- The text form of times is a parameter.
module _ (parse : String → Option ℕ) where
  abbrev is_waiting : ℕ → Option ℕ → Bool
  is_waiting now none = false
  is_waiting now (some until) = ltb now until && leb until (now + max_rate_limit_wait)

  unfoldable pub is_rate_limited : State → ℕ → Bool
  is_rate_limited s now =
      if str_eq s.rate_limited_until "" then false else is_waiting now (parse s.rate_limited_until)

  abbrev is_within : ℕ → Option ℕ → Bool
  is_within now none = false
  is_within now (some t) = ltb now (t + pairing_grace_period)

  unfoldable pub within_pairing_grace : String → ℕ → Bool
  within_pairing_grace paired_at now =
      if str_eq paired_at "" then false else is_within now (parse paired_at)

  abbrev is_before : ℕ → Option ℕ → Bool
  is_before now none = false
  is_before now (some until) = ltb now until

  unfoldable pub subagents_paused : State → ℕ → Bool
  subagents_paused s now =
      if str_eq s.subagents_off_until "" then false else is_before now (parse s.subagents_off_until)

wait_of_bounds : (o : Option ℕ) → (1000000000 ≤ wait_of o) × (wait_of o ≤ 600000000000)
wait_of_bounds none = (omega arith, omega arith)
wait_of_bounds (some bits) = (ground arith, ground arith)

-- What a Retry-After header of `secs` seconds makes of the wait.
abbrev pub IsObeyed : StatusError → Text → ℕ → Type 0
IsObeyed se header secs =
    header ≢ []
    → atoi (trim_space header) ≡ some (pos secs)
    → se.retry_after ≡ parse_retry_after header
    → (1 ≤ secs → secs ≤ 600 → rate_limit_wait se ≡ secs * 1000000000)
      × (600 ≤ secs → secs * 1000000000 < 2 ^ 63 → rate_limit_wait se ≡ 600000000000)
      × (2 ^ 63 ≤ secs * 1000000000 → secs * 1000000000 < 2 ^ 64 → rate_limit_wait se ≡ 1000000000)

header-IsObeyed : (se : StatusError) (header : Text) (secs : ℕ) → IsObeyed se header secs
unfolding rate_limit_wait parse_retry_after
header-IsObeyed se [] secs some_header read given = absurd (some_header refl)
header-IsObeyed se (c ∷ s) secs some_header read given =
    rw (given, read) (ground arith, ground arith, ground arith)

-- Whatever the relay answers to a 429, the wait is at least a second and at most ten minutes, and
-- without a valid Retry-After it is thirty seconds. A Retry-After that was read from a header of
-- `secs` seconds is kept as it is from one second to ten minutes; a longer one that fits an int64 of
-- nanoseconds makes the wait ten minutes, and the first ones that do not fit make it a single second.
pub rate_limit_wait_lem :
    (se : StatusError)
    → (1000000000 ≤ rate_limit_wait se)
      × (rate_limit_wait se ≤ 600000000000)
      × (se.retry_after ≡ none → rate_limit_wait se ≡ 30000000000)
      × ((header : Text) (secs : ℕ) → IsObeyed se header secs)
unfolding rate_limit_wait
rate_limit_wait_lem se =
    let (low, high) = wait_of_bounds se.retry_after in
    (low, high, λ e. rw e refl, header-IsObeyed se)
