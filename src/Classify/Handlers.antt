-- ===== src/Classify/Handlers.antt =====
-- internal/classify/classify.go: `Classify` and the handlers of its hooks.
-- Parsing a runner's output is `ParseResult`, a parameter of this module that `Results` fills.
pub mod Frame
use agentpulse_bridge.Base.{
  ℕ, ◌+◌, ◌*◌, Bool, true, false, not, ◌&&◌, Option, none, some, String, List, [], ◌∷◌, ◌++◌, any,
  leb, ◌==◌, str_eq, if◌then◌else◌,
}
use agentpulse_bridge.Base.Text.{Text, codes, starts_with, atoi, ℤ}
use agentpulse_bridge.Base.Dict.{remove}
use agentpulse_bridge.Classify.Event.{
  Event, EventType, Category, read, edit, Payload, empty_payload, NeedsInput, permission, question,
  plan, ToolCategory, command, file, web, EndReason, clear, logout, prompt_input_exit, Cause,
  usage_limit, limit_reset, billing, auth, overloaded, output_limit, api_error, VerificationResult,
  Runner,
}
use agentpulse_bridge.Classify.Event
use agentpulse_bridge.Classify.State.{
  ChainState, empty_chain, SessionState, ChainRef, main_chain, detached, get_chain, set_chain,
  chain, is_overflow, PendingVerification,
}
use agentpulse_bridge.Classify.Input.{
  HookInput, Hook, hook_of, Tool, tool_of, read_path_for, edit_path_for,
}
use agentpulse_bridge.Classify.Input
use agentpulse_bridge.Classify.Names.{first_line_task_label}
use agentpulse_bridge.Classify.Env.{Env}
use agentpulse_bridge.Classify.Runners.{
  Detected, detect_runner, normalize, gh_pr_create_pattern, git_commit_pattern, pull_url_pattern,
}
use agentpulse_bridge.Classify.Build.{
  Call, Handled, subagent_for, emit, activity_event, needs_input_event,
}

abbrev pub permission_dedup_window : ℕ
permission_dedup_window = 5 * 1000000000

unfoldable pub paused_cause : String → Cause
paused_cause code =
    if str_eq code "rate_limit"
    then usage_limit
    else if str_eq code "billing_error"
    then billing
    else if str_eq code "account_on_hold"
    then billing
    else if str_eq code "authentication_failed"
    then auth
    else if str_eq code "oauth_org_not_allowed"
    then auth
    else if str_eq code "cloud_credential_error"
    then auth
    else if str_eq code "overloaded"
    then overloaded
    else if str_eq code "max_output_tokens"
    then output_limit
    else api_error

unfoldable pub session_end_reason : String → EndReason
session_end_reason reason =
    if str_eq reason "clear"
    then clear
    else if str_eq reason "logout"
    then logout
    else if str_eq reason "prompt_input_exit"
    then prompt_input_exit
    else EndReason.other

unfoldable pub tool_category : Tool → ToolCategory
tool_category Tool.bash = command
tool_category Tool.edit = file
tool_category Tool.write = file
tool_category Tool.multi_edit = file
tool_category Tool.notebook_edit = file
tool_category Tool.read = file
tool_category Tool.web_fetch = web
tool_category Tool.web_search = web
tool_category _ = ToolCategory.other

-- `m[hash] = true` on a set of hashes.
unfoldable pub add_hash : String → List String → List String
add_hash h hashes = if any (λ x. str_eq x h) hashes then hashes else h ∷ hashes

abbrev pub no_event : SessionState → Handled
no_event s = (s, none)

module _ (env : Env) (parse_result : Runner → Bool → Text → VerificationResult) where
  unfoldable pub classify_session_start : Call → SessionState → Handled
  unfolding emit
  classify_session_start call s =
      emit env call s main_chain EventType.session_start
        (Payload.session_start_payload call.input.bridge_version env.os)

  unfoldable pub classify_user_prompt_submit : Call → SessionState → Handled
  unfolding emit
  classify_user_prompt_submit call s =
      let label =
        if call.input.task_label_on && s.awaiting_task_label
        then first_line_task_label call.input.prompt
        else [] in
      emit env call (record s { awaiting_task_label = false }) main_chain EventType.prompt_submitted
        (Payload.prompt_submitted_payload label)

  unfoldable pub classify_stop : Call → SessionState → Handled
  unfolding emit
  classify_stop call s =
      emit env call (record s { awaiting_task_label = true }) main_chain EventType.stop
        empty_payload

  unfoldable pub classify_session_end : Call → SessionState → Handled
  unfolding emit
  classify_session_end call s =
      emit env call s main_chain EventType.session_end
        (Payload.session_end_payload (session_end_reason call.input.reason))

  emit_paused : Call → SessionState → Cause → Handled
  unfolding emit
  emit_paused call s cause =
      emit env call s main_chain EventType.paused (Payload.paused_payload cause)

  unfoldable pub classify_stop_failure : Call → SessionState → Handled
  unfolding emit_paused
  classify_stop_failure call s =
      if not (str_eq call.input.agent_id "")
      then no_event s
      else emit_paused call s (paused_cause call.input.error)

  -- `none` where the code returns handled = false.
  unfoldable pub classify_quota_notification : Call → SessionState → Option Handled
  unfolding emit_paused
  classify_quota_notification call s =
      let kind = call.input.notification_type in
      if str_eq kind "quota_auto_resume_stale"
      then (if not (str_eq call.input.agent_id "")
          then some (no_event s)
          else some (emit_paused call s limit_reset))
      else if str_eq kind "quota_auto_resume_fired"
      then some (no_event s)
      else if str_eq kind "quota_auto_resume_disabled"
      then some (no_event s)
      else none

  abbrev pub reset_markers : ChainState → ChainState
  reset_markers c = record c {
    pending_verification = none;
    pending_needs_input = none;
    pr_pending = false;
    commit_pending = false;
  }

  abbrev add_path : Option String → List String → List String
  add_path none hashes = hashes
  add_path (some path) hashes = add_hash (env.hash_path path) hashes

  abbrev pub update_read_counters : Call → SessionState → SessionState
  update_read_counters call s = record s {
    read_hashes =
        add_path
          (read_path_for (tool_of call.input.tool_name)
            (env.decode_tool_input call.input.tool_input))
          s.read_hashes;
  }

  abbrev pub update_edit_counters : Call → SessionState → SessionState
  update_edit_counters call s = record s {
    edit_hashes =
        add_path
          (edit_path_for (tool_of call.input.tool_name)
            (env.decode_tool_input call.input.tool_input))
          s.edit_hashes;
  }

  abbrev mark_pr : SessionState → ChainRef → SessionState
  mark_pr s ref = set_chain s ref (record (get_chain s ref) { pr_pending = true })

  abbrev mark_commit : SessionState → ChainRef → SessionState
  mark_commit s ref = set_chain s ref (record (get_chain s ref) { commit_pending = true })

  abbrev mark_verification : SessionState → ChainRef → Detected → SessionState
  mark_verification s ref d = set_chain s ref (record (get_chain s ref) {
    pending_verification =
        some (record { runner = d.id; kind = d.kind; go_verbose = d.go_verbose });
  })

  abbrev pub start_verification : Call → SessionState → ChainRef → Option Detected → Handled
  start_verification call s ref none = activity_event env call s ref Category.other
  start_verification call s ref (some d) =
      emit env call (mark_verification s ref d) ref EventType.verification_started
        (Payload.verification_started_payload d.kind d.id)

  unfoldable pub classify_pre_tool_use_bash : Call → SessionState → ChainRef → Handled
  unfolding emit
  classify_pre_tool_use_bash call s ref =
      let text = (env.decode_tool_input call.input.tool_input).command in
      let seg = normalize env.regexp text in
      if env.regexp.is_match gh_pr_create_pattern seg
      then activity_event env call (mark_pr s ref) ref Category.other
      else if env.regexp.is_match git_commit_pattern seg
      then activity_event env call (mark_commit s ref) ref Category.other
      else start_verification call s ref (detect_runner env.regexp text)

  -- The marker of a question or a plan, unless the chain is the shared one.
  abbrev mark_needs_input : SessionState → ChainRef → NeedsInput → SessionState
  mark_needs_input s ref kind =
      if is_overflow ref
      then s
      else set_chain s ref (record (get_chain s ref) { pending_needs_input = some kind })

  abbrev pub ask : Call → SessionState → ChainRef → NeedsInput → Handled
  ask call s ref kind = needs_input_event env call (mark_needs_input s ref kind) ref kind none

  abbrev reading : Call → SessionState → ChainRef → Handled
  reading call s ref = activity_event env call (update_read_counters call s) ref Category.read

  abbrev editing : Call → SessionState → ChainRef → Handled
  editing call s ref = activity_event env call (update_edit_counters call s) ref Category.edit

  -- The `switch` on the tool, after the markers are reset.
  unfoldable pub use_tool : Tool → Call → SessionState → ChainRef → Handled
  unfolding classify_pre_tool_use_bash
  use_tool Tool.ask_user_question call s ref = ask call s ref question
  use_tool Tool.exit_plan_mode call s ref = ask call s ref plan
  use_tool Tool.read call s ref = reading call s ref
  use_tool Tool.glob call s ref = reading call s ref
  use_tool Tool.grep call s ref = reading call s ref
  use_tool Tool.ls call s ref = reading call s ref
  use_tool Tool.web_fetch call s ref = reading call s ref
  use_tool Tool.web_search call s ref = reading call s ref
  use_tool Tool.edit call s ref = editing call s ref
  use_tool Tool.multi_edit call s ref = editing call s ref
  use_tool Tool.write call s ref = editing call s ref
  use_tool Tool.notebook_edit call s ref = editing call s ref
  use_tool Tool.bash call s ref =
      if is_overflow ref
      then activity_event env call s ref Category.other
      else classify_pre_tool_use_bash call s ref
  use_tool Tool.other_tool call s ref = activity_event env call s ref Category.other

  unfoldable pub classify_pre_tool_use : Call → SessionState → ChainRef → Handled
  classify_pre_tool_use call s ref =
      use_tool (tool_of call.input.tool_name) call
        (set_chain s ref (reset_markers (get_chain s ref))) ref

  abbrev first_group : Option (List Text) → Option Text
  first_group (some (m ∷ g ∷ groups)) = some g
  first_group _ = none

  abbrev int_of : Option Text → Option ℤ
  int_of none = none
  int_of (some digits) = atoi digits

  -- `matchInt(pullURLPattern, output)`
  unfoldable pub parse_pr_number : Text → Option ℤ
  parse_pr_number output = int_of (first_group (env.regexp.find pull_url_pattern output))

  abbrev finish_verification : Call → SessionState → ChainRef → PendingVerification → Text → Handled
  finish_verification call s ref pv output =
      let cleared = set_chain s ref (record (get_chain s ref) { pending_verification = none }) in
      emit env call (record cleared { verification_runs = cleared.verification_runs + 1 }) ref
        EventType.verification_finished
        (Payload.verification_finished_payload pv.kind pv.runner
          (parse_result pv.runner pv.go_verbose output))

  abbrev pub finish_pr : Call → SessionState → ChainRef → Option ℤ → Handled
  finish_pr call s ref none = no_event s
  finish_pr call s ref (some number) =
      emit env call s ref EventType.pr_created (Payload.pr_created_payload number)

  abbrev pub finish_other : Call → SessionState → ChainRef → Option NeedsInput → Handled
  finish_other call s ref none = no_event s
  finish_other call s ref (some kind) =
      emit env call (set_chain s ref (record (get_chain s ref) { pending_needs_input = none })) ref
        EventType.input_resolved empty_payload

  abbrev finish_commit : Call → SessionState → ChainRef → Handled
  finish_commit call s ref =
      let cleared = set_chain s ref (record (get_chain s ref) { commit_pending = false }) in
      emit env call (record cleared { commits = cleared.commits + 1 }) ref EventType.commit
        empty_payload

  -- The markers are consulted in this order.
  abbrev pub finish : Call → SessionState → ChainRef → Option PendingVerification → Text → Handled
  finish call s ref (some pv) output = finish_verification call s ref pv output
  finish call s ref none output =
      if (get_chain s ref).pr_pending
      then finish_pr call (set_chain s ref (record (get_chain s ref) { pr_pending = false })) ref
          (parse_pr_number output)
      else if (get_chain s ref).commit_pending
      then finish_commit call s ref
      else finish_other call s ref (get_chain s ref).pending_needs_input

  unfoldable pub classify_post_tool_use : Call → SessionState → ChainRef → Handled
  unfolding emit parse_pr_number
  classify_post_tool_use call s ref =
      if is_overflow ref
      then no_event s
      else finish call s ref (get_chain s ref).pending_verification
          (env.extract_response_text call.input.tool_response)

  unfoldable pub classify_permission_request : Call → SessionState → ChainRef → Handled
  unfolding needs_input_event
  classify_permission_request call s ref =
      needs_input_event env call (record s { last_permission_request_at = call.now }) ref permission
        (some (tool_category (tool_of call.input.tool_name)))

  -- The prompt of a recent PermissionRequest, in any chain.
  abbrev pub is_repeated : Call → SessionState → Bool
  is_repeated call s =
      not (s.last_permission_request_at == 0)
      && leb call.now (s.last_permission_request_at + permission_dedup_window)

  unfoldable pub classify_notification : Call → SessionState → ChainRef → Handled
  unfolding needs_input_event
  classify_notification call s ref =
      if starts_with (codes "Claude needs your permission") call.input.message
      then (if is_repeated call s
          then no_event s
          else needs_input_event env call s ref permission none)
      else no_event s

  abbrev pub chain_id : Call → String
  chain_id call = elim call.subagent [ none ↦ "" | some sub ↦ sub.id ]

  -- A handler on the chain of the call.
  abbrev pub in_chain : (Call → SessionState → ChainRef → Handled) → Call → SessionState → Handled
  in_chain handler call s = let (s', ref) = chain s (chain_id call) call.now in handler call s' ref

  abbrev pub main_only : (Call → SessionState → Handled) → Call → SessionState → Handled
  main_only handler call s = if str_eq (chain_id call) "" then handler call s else no_event s

  abbrev pub subagent_only : (Call → SessionState → Handled) → Call → SessionState → Handled
  subagent_only handler call s = if str_eq (chain_id call) "" then no_event s else handler call s

  abbrev pub notify : Call → SessionState → Option Handled → Handled
  notify call s (some handled) = handled
  notify call s none = in_chain classify_notification call s

  abbrev pub start_subagent : Call → SessionState → ChainRef → Handled
  start_subagent call s ref = emit env call s ref EventType.subagent_start empty_payload

  -- The event is built on a chain state of its own, and the subagent's is deleted.
  abbrev pub stop_subagent : Call → SessionState → Handled
  stop_subagent call s =
      let (s', e) = emit env call s detached EventType.subagent_stop empty_payload in
      (record s' { subagents = remove (chain_id call) s'.subagents }, e)

  -- The `switch` of `Classify`.
  unfoldable pub dispatch : Hook → Call → SessionState → Handled
  unfolding classify_session_start classify_user_prompt_submit classify_stop classify_session_end
  dispatch Hook.session_start call s = main_only classify_session_start call s
  dispatch Hook.user_prompt_submit call s = main_only classify_user_prompt_submit call s
  dispatch Hook.stop call s = main_only classify_stop call s
  dispatch Hook.session_end call s = main_only classify_session_end call s
  dispatch Hook.pre_tool_use call s = in_chain classify_pre_tool_use call s
  dispatch Hook.post_tool_use call s = in_chain classify_post_tool_use call s
  dispatch Hook.permission_request call s = in_chain classify_permission_request call s
  dispatch Hook.notification call s = notify call s (classify_quota_notification call s)
  dispatch Hook.stop_failure call s = classify_stop_failure call s
  dispatch Hook.subagent_start call s = subagent_only (in_chain start_subagent) call s
  dispatch Hook.subagent_stop call s = subagent_only stop_subagent call s
  dispatch Hook.pre_compact call s = no_event s
  dispatch Hook.unknown_hook call s = no_event s

  abbrev pub call_of : HookInput → Call
  call_of input = record {
    input = input;
    subagent = subagent_for env input;
    now = if input.now == 0 then env.wall_clock else input.now;
  }

  unfoldable pub classify : HookInput → SessionState → Handled
  unfolding dispatch
  classify input s = dispatch (hook_of input.hook_event_name) (call_of input) s
