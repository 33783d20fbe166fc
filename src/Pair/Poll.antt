-- ===== src/Pair/Poll.antt =====
-- internal/pair/poll.go: `Poll`. Instants and lengths of time are nanoseconds.
pub mod Returns
use agentpulse_bridge.Base.{
  ℕ, zero, suc, ◌+◌, ◌-◌, ◌*◌, Bool, true, false, Option, none, some, ltb, leb, if◌then◌else◌,
}
use agentpulse_bridge.Base.Text.{Text}
use agentpulse_bridge.Relay.Types.{
  Kind, unknown, bad_request, unauthorized, rate_limited, server_error, network, timeout,
}

abbrev pub default_poll_interval : ℕ
default_poll_interval = 2 * 1000000000

abbrev pub default_auth_grace : ℕ
default_auth_grace = 60 * 1000000000

-- What one request gives: a status, a StatusError with its Retry-After if that is valid, or another
-- error. A Retry-After below zero is never longer than the interval, and stands as zero.
pub data Answer : Type 0 where
  paired : Text → Answer
  waiting : Answer
  status_error : Kind → Option ℕ → Answer
  other_error : Answer

pub data Polled : Type 0 where
  device : Text → Polled
  cancelled expired rejected : Polled

-- The surroundings of one turn: whether the context is over at its start, what the request gives and
-- how long it takes, the time until the clock is read for the grace and again for what remains, and
-- whether the sleep is interrupted and how much longer than asked it takes.
pub record Turn : Type 0 where
  pub is_over : Bool
  pub answer : Answer
  pub request_time : ℕ
  pub judge_time : ℕ
  pub measure_time : ℕ
  pub is_interrupted : Bool
  pub oversleep : ℕ

pub record PollOptions : Type 0 where
  pub deadline : ℕ
  pub interval : ℕ
  pub auth_grace : ℕ
  pub start : ℕ

abbrev pub or_zero : Option ℕ → ℕ
or_zero none = 0
or_zero (some n) = n

-- `classify`: an extra wait, or `none` to give up.
unfoldable pub classify : Kind → Option ℕ → Bool → Option ℕ
classify unauthorized retry_after in_grace = if in_grace then some 0 else none
classify rate_limited retry_after in_grace = some (or_zero retry_after)
classify unknown retry_after in_grace = some 0
classify bad_request retry_after in_grace = some 0
classify server_error retry_after in_grace = some 0
classify network retry_after in_grace = some 0
classify timeout retry_after in_grace = some 0

abbrev pub longer : ℕ → ℕ → ℕ
longer wait retry_after = if ltb wait retry_after then retry_after else wait

-- The end of the loop, or the wait before the next turn.
pub data Next : Type 0 where
  stop : Polled → Next
  wait_for : ℕ → Next

abbrev pub after_failure : ℕ → Option ℕ → Next
after_failure interval none = stop rejected
after_failure interval (some retry_after) = wait_for (longer interval retry_after)

module _ (opts : PollOptions) where
  abbrev pub or_default : ℕ → ℕ → ℕ
  or_default zero default = default
  or_default (suc n) default = suc n

  abbrev pub poll_interval : ℕ
  poll_interval = or_default opts.interval default_poll_interval

  abbrev pub in_grace : ℕ → Bool
  in_grace t = ltb t (opts.start + or_default opts.auth_grace default_auth_grace)

  unfoldable pub judge_answer : Answer → ℕ → Next
  unfolding classify
  judge_answer (paired name) t = stop (device name)
  judge_answer waiting t = wait_for poll_interval
  judge_answer (status_error kind retry_after) t =
      after_failure poll_interval (classify kind retry_after (in_grace t))
  judge_answer other_error t = wait_for poll_interval

  abbrev pub shorter : ℕ → ℕ → ℕ
  shorter remaining wait = if ltb remaining wait then remaining else wait

  -- The turns from the time `t` on; `none` is out of fuel.
  unfoldable pub poll : ℕ → (ℕ → Turn) → ℕ → ℕ → Option Polled
  unfolding judge_answer
  poll zero turns k t = none
  poll (suc fuel) turns k t =
      let turn = turns k in
      let judged = t + turn.request_time + turn.judge_time in
      let measured = judged + turn.measure_time in
      let remaining = opts.deadline - measured in
      let go_on = λ (wait : ℕ).
        poll fuel turns (suc k) (measured + shorter remaining wait + turn.oversleep) in
      if turn.is_over
      then some cancelled
      else if leb opts.deadline t
      then some expired
      else (elim (judge_answer turn.answer judged) [
        | stop result ↦ some result
        | wait_for wait ↦
            if leb remaining 0
            then some expired
            else if turn.is_interrupted
            then some cancelled
            else go_on wait
      ])

-- An option that is not set has its default, a start the time of the call.
abbrev pub or_now : ℕ → ℕ → ℕ
or_now zero now = now
or_now (suc n) now = suc n

abbrev pub with_start : PollOptions → ℕ → PollOptions
with_start opts now = record opts { start = or_now opts.start now }

-- `Poll`, called at one time, with its loop from another on.
unfoldable pub run_poll : PollOptions → ℕ → (ℕ → Turn) → ℕ → ℕ → Option Polled
unfolding poll
run_poll opts fuel turns now t = poll (with_start opts now) fuel turns 0 t
