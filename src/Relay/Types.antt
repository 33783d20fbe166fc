-- ===== src/Relay/Types.antt =====
-- internal/relay/types.go and errors.go: what the relay answers and how a delivery stops.
use agentpulse_bridge.Base.{ℕ, String, Bool, Option, none, List, []}
use agentpulse_bridge.Base.Text.{Text, ℤ, pos}

pub record WatchList : Type 0 where
  pub version : ℤ
  pub watch_new_projects : Bool
  -- key hash and whether the project is watched, each key once
  pub projects : List (String × Bool)

pub record Settings : Type 0 where
  pub task_label : Bool

pub record DroppedEvent : Type 0 where
  pub index : ℕ
  pub event_type : String
  pub unexpected_field : Text

pub record Response : Type 0 where
  pub sent : ℕ
  pub accepted : ℤ
  pub duplicates : ℤ
  pub watch_list : Option WatchList
  pub settings : Option Settings
  pub dropped : List DroppedEvent

abbrev pub empty_response : Response
empty_response = record {
  sent = 0;
  accepted = pos 0;
  duplicates = pos 0;
  watch_list = none;
  settings = none;
  dropped = [];
}

pub record OkBody : Type 0 where
  pub accepted : ℤ
  pub duplicates : ℤ
  pub watch_list : Option WatchList
  pub settings : Option Settings

abbrev pub zero_ok_body : OkBody
zero_ok_body = record { accepted = pos 0; duplicates = pos 0; watch_list = none; settings = none }

pub record ErrorBody : Type 0 where
  pub detail : Text
  pub required_bridge_version : Text

abbrev pub zero_error_body : ErrorBody
zero_error_body = record { detail = []; required_bridge_version = [] }

pub data Kind : Type 0 where
  unknown bad_request unauthorized rate_limited server_error network timeout : Kind

pub record StatusError : Type 0 where
  pub kind : Kind
  pub status_code : ℕ
  pub required_bridge_version : Text
  -- the Retry-After delay in nanoseconds as the 64 bits of an int64, if it was valid
  pub retry_after : Option ℕ
  -- `none` is the code's -1
  pub event_index : Option ℕ
  pub unexpected_field : Text

abbrev pub status_error : Kind → ℕ → StatusError
status_error k code = record {
  kind = k;
  status_code = code;
  required_bridge_version = [];
  retry_after = none;
  event_index = none;
  unexpected_field = [];
}

-- `PostEvents` returns a `*StatusError`, or an error of another shape when the batch cannot be encoded.
pub data PostError : Type 0 where
  status : StatusError → PostError
  encoding : PostError
