-- ===== src/Flush/Types.antt =====
-- internal/state/state.go, and the variables of `runFlush`'s loop.
use agentpulse_bridge.Base.{ℕ, String, Bool, Option, List, Bytes}
use agentpulse_bridge.Base.Text.{Text}
use agentpulse_bridge.Watch.{File}
use agentpulse_bridge.Relay.Client.{HttpResult}

pub data Outcome : Type 0 where
  outcome_ok unpaired unauthorized rate_limited schema_error server_error network_error
        budget_cut_off :
      Outcome

pub record LastEvent : Type 0 where
  pub ts : String
  pub event_type : String
  pub session_id : String

pub record LastFlush : Type 0 where
  pub ts : String
  pub outcome : Outcome
  pub http_status : ℕ

pub record State : Type 0 where
  pub consecutive_401 : ℕ
  pub unpaired_reason : String
  pub required_bridge_version : Text
  pub last_event : Option LastEvent
  pub last_flush : Option LastFlush
  pub subagents_off_until : String
  pub rate_limited_until : String

-- What the loop keeps between its turns; `is_cleared` says that the credential is deleted.
pub record Progress : Type 0 where
  pub cur : List Bytes
  pub file : File
  pub state : State
  pub is_cleared : Bool
  pub retry_attempt : ℕ
  pub rate_limit_retries : ℕ
  pub outcome : Outcome
  pub http_status : ℕ

-- What the surroundings do in one turn: whether the context is over when it starts, the exchanges of
-- its PostEvents, the clock after it, whether a sleep of a length fits the budget and runs out, and
-- whether deleting the credential succeeds.
pub record Turn : Type 0 where
  pub is_over : Bool
  pub expired : ℕ → Bool
  pub send : ℕ → List Bytes → HttpResult
  pub rejected_at : ℕ
  pub answered_at : ℕ
  pub sleeps : ℕ → Bool
  pub deletes : Bool
