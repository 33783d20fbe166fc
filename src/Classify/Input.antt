-- ===== src/Classify/Input.antt =====
-- internal/classify/hookinput.go and tool_input.go: what a hook call brings, and the fields of its
-- tool input. The names that the code switches on are read into data types by `hook_of`, `tool_of` and the like.
use agentpulse_bridge.Base.{
  ℕ, Bool, not, ◌&&◌, Option, none, some, String, str_eq, if◌then◌else◌, Bytes,
}
use agentpulse_bridge.Base.Text.{Text}

pub data Hook : Type 0 where
  session_start user_prompt_submit pre_tool_use post_tool_use permission_request notification stop
        session_end stop_failure subagent_start subagent_stop pre_compact unknown_hook :
      Hook

unfoldable pub hook_of : String → Hook
hook_of name =
    if str_eq name "SessionStart"
    then session_start
    else if str_eq name "UserPromptSubmit"
    then user_prompt_submit
    else if str_eq name "PreToolUse"
    then pre_tool_use
    else if str_eq name "PostToolUse"
    then post_tool_use
    else if str_eq name "PermissionRequest"
    then permission_request
    else if str_eq name "Notification"
    then notification
    else if str_eq name "Stop"
    then stop
    else if str_eq name "SessionEnd"
    then session_end
    else if str_eq name "StopFailure"
    then stop_failure
    else if str_eq name "SubagentStart"
    then subagent_start
    else if str_eq name "SubagentStop"
    then subagent_stop
    else if str_eq name "PreCompact"
    then pre_compact
    else unknown_hook

pub data Tool : Type 0 where
  ask_user_question exit_plan_mode read glob grep ls web_fetch web_search edit multi_edit write
        notebook_edit bash other_tool :
      Tool

unfoldable pub tool_of : String → Tool
tool_of name =
    if str_eq name "AskUserQuestion"
    then ask_user_question
    else if str_eq name "ExitPlanMode"
    then exit_plan_mode
    else if str_eq name "Read"
    then read
    else if str_eq name "Glob"
    then glob
    else if str_eq name "Grep"
    then grep
    else if str_eq name "LS"
    then ls
    else if str_eq name "WebFetch"
    then web_fetch
    else if str_eq name "WebSearch"
    then web_search
    else if str_eq name "Edit"
    then edit
    else if str_eq name "MultiEdit"
    then multi_edit
    else if str_eq name "Write"
    then write
    else if str_eq name "NotebookEdit"
    then notebook_edit
    else if str_eq name "Bash"
    then bash
    else other_tool

pub record HookInput : Type 0 where
  pub hook_event_name : String
  pub session_id : String
  pub cwd : Text
  pub tool_name : String
  pub tool_input : Bytes
  pub tool_response : Bytes
  pub prompt : Text
  pub message : Text
  pub reason : String
  pub error : String
  pub notification_type : String
  pub agent_id : String
  pub agent_type : Text
  pub now : ℕ
  pub bridge_id : String
  pub bridge_version : String
  pub task_label_on : Bool
  pub subagents_on : Bool

unfoldable pub in_subagent : HookInput → Bool
in_subagent i = i.subagents_on && not (str_eq i.agent_id "")

pub record ToolInputFields : Type 0 where
  pub command : Text
  pub file_path : String
  pub notebook_path : String
  pub path : String

abbrev non_empty : String → Option String
non_empty p = if str_eq p "" then none else some p

unfoldable pub read_path_for : Tool → ToolInputFields → Option String
read_path_for read f = non_empty f.file_path
read_path_for glob f = non_empty f.path
read_path_for grep f = non_empty f.path
read_path_for ls f = non_empty f.path
read_path_for _ f = none

unfoldable pub edit_path_for : Tool → ToolInputFields → Option String
edit_path_for notebook_edit f = non_empty f.notebook_path
edit_path_for _ f = non_empty f.file_path
