-- ===== src/Classify/State.antt =====
-- internal/classify/session_state.go: one session's scratch and its chains.
-- The code hands `*ChainState` pointers into the state; here a `ChainRef` says which part one points
-- to, and reads and writes go through the state.
use agentpulse_bridge.Base.{
  ℕ, ◌+◌, ◌*◌, Bool, true, false, not, Option, none, some, String, List, [], leb, str_eq,
  if◌then◌else◌, length, keep_if,
}
use agentpulse_bridge.Base.Dict.{Dict, lookup, insert}
use agentpulse_bridge.Classify.Event.{Category, Kind, Runner, NeedsInput, Project}

pub record PendingVerification : Type 0 where
  pub runner : Runner
  pub kind : Kind
  pub go_verbose : Bool

-- Instants are nanoseconds since Go's zero time, so `IsZero` is `== 0`.
pub record ChainState : Type 0 where
  pub last_emitted_category : Option Category
  pub last_emitted_at : ℕ
  pub last_needs_input_at : ℕ
  pub pr_pending : Bool
  pub commit_pending : Bool
  pub pending_verification : Option PendingVerification
  pub pending_needs_input : Option NeedsInput

abbrev pub empty_chain : ChainState
empty_chain = record {
  last_emitted_category = none;
  last_emitted_at = 0;
  last_needs_input_at = 0;
  pr_pending = false;
  commit_pending = false;
  pending_verification = none;
  pending_needs_input = none;
}

pub record SessionState : Type 0 where
  pub read_hashes : List String
  pub edit_hashes : List String
  pub verification_runs : ℕ
  pub commits : ℕ
  pub main : ChainState
  pub subagents : Dict ChainState
  pub overflow : Option ChainState
  pub last_permission_request_at : ℕ
  pub project : Option Project
  pub awaiting_task_label : Bool
  pub keep_awake_pid : ℕ

abbrev pub new_session_state : SessionState
new_session_state = record {
  read_hashes = [];
  edit_hashes = [];
  verification_runs = 0;
  commits = 0;
  main = empty_chain;
  subagents = [];
  overflow = none;
  last_permission_request_at = 0;
  project = none;
  awaiting_task_label = true;
  keep_awake_pid = 0;
}

abbrev pub max_subagent_chains : ℕ
max_subagent_chains = 16

abbrev pub idle_chain_age : ℕ
idle_chain_age = 60 * 60 * 1000000000

-- `detached` is a chain state that no part of the session holds.
pub data ChainRef : Type 0 where
  main_chain : ChainRef
  subagent_chain : String → ChainRef
  overflow_chain : ChainRef
  detached : ChainRef

abbrev pub or_empty : Option ChainState → ChainState
or_empty none = empty_chain
or_empty (some c) = c

unfoldable pub get_chain : SessionState → ChainRef → ChainState
get_chain s main_chain = s.main
get_chain s (subagent_chain id) = or_empty (lookup id s.subagents)
get_chain s overflow_chain = or_empty s.overflow
get_chain s detached = empty_chain

unfoldable pub set_chain : SessionState → ChainRef → ChainState → SessionState
set_chain s main_chain c = record s { main = c }
set_chain s (subagent_chain id) c = record s { subagents = insert id c s.subagents }
set_chain s overflow_chain c = record s { overflow = some c }
set_chain s detached c = s

abbrev pub is_live : ℕ → String × ChainState → Bool
is_live now entry = not (leb (entry.1.last_emitted_at + idle_chain_age) now)

abbrev pub is_at_cap : Dict ChainState → Bool
is_at_cap m = leb max_subagent_chains (length m)

-- At the cap the idle entries go.
abbrev pub make_room : ℕ → Dict ChainState → Dict ChainState
make_room now m = if is_at_cap m then keep_if (is_live now) m else m

abbrev pub new_chain : SessionState → String → SessionState × ChainRef
new_chain s id =
    if is_at_cap s.subagents
    then (record s { overflow = some (or_empty s.overflow) }, overflow_chain)
    else (record s { subagents = insert id empty_chain s.subagents }, subagent_chain id)

abbrev pub subagent_entry : SessionState → String → ℕ → Option ChainState → SessionState × ChainRef
subagent_entry s id now (some c) = (s, subagent_chain id)
subagent_entry s id now none = new_chain (record s { subagents = make_room now s.subagents }) id

-- `state.chain(id, now)`
unfoldable pub chain : SessionState → String → ℕ → SessionState × ChainRef
chain s id now =
    if str_eq id "" then (s, main_chain) else subagent_entry s id now (lookup id s.subagents)

-- The overflow chain exists wherever a reference to it was made.
abbrev pub is_overflow : ChainRef → Bool
is_overflow overflow_chain = true
is_overflow _ = false
