-- ===== src/Classify/Event.antt =====
-- internal/classify/event.go: the closed set of events. The string constants of one enum are a data
-- type here.
use agentpulse_bridge.Base.{ℕ, String, Option}
use agentpulse_bridge.Base.Text.{Text, ℤ}

pub data EventType : Type 0 where
  session_start prompt_submitted activity verification_started verification_finished needs_input
        input_resolved pr_created commit stop session_end paused subagent_start subagent_stop
        project_seen :
      EventType

pub data Category : Type 0 where
  read edit other : Category

pub data Kind : Type 0 where
  test build : Kind

pub data Outcome : Type 0 where
  pass fail unknown : Outcome

pub data Runner : Type 0 where
  pytest jest vitest mocha npm go cargo swift xcodebuild build : Runner

pub data NeedsInput : Type 0 where
  permission question plan : NeedsInput

pub data ToolCategory : Type 0 where
  command file web other : ToolCategory

pub data EndReason : Type 0 where
  clear logout prompt_input_exit other : EndReason

pub data Cause : Type 0 where
  usage_limit limit_reset billing auth overloaded output_limit api_error : Cause

pub data Os : Type 0 where
  darwin linux : Os

pub record Project : Type 0 where
  pub key_hash : String
  pub name : Text

pub record Counters : Type 0 where
  pub files_read : ℕ
  pub files_edited : ℕ
  pub verification_runs : ℕ
  pub commits : ℕ

pub record VerificationResult : Type 0 where
  pub outcome : Outcome
  pub passed : Option ℤ
  pub failed : Option ℤ
  pub total : Option ℤ

-- An absent optional field is `none`; an empty task label is left out too.
pub data Payload : Type 0 where
  session_start_payload : String → Os → Payload
  prompt_submitted_payload : Text → Payload
  activity_payload : Category → Payload
  verification_started_payload : Kind → Runner → Payload
  verification_finished_payload : Kind → Runner → VerificationResult → Payload
  needs_input_payload : NeedsInput → Option ToolCategory → Payload
  empty_payload : Payload
  pr_created_payload : ℤ → Payload
  session_end_payload : EndReason → Payload
  paused_payload : Cause → Payload

pub record Subagent : Type 0 where
  pub id : String
  pub agent_type : Text

pub record Event : Type 0 where
  pub event_id : String
  pub bridge_id : String
  pub session_id : String
  pub project : Project
  pub ts : String
  pub event_type : EventType
  pub counters : Counters
  pub payload : Payload
  pub subagent : Option Subagent
