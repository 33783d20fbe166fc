-- ===== src/Classify/Stamps/Hooks.antt =====
-- internal/classify/classify.go: every hook's event carries its stamp.
use agentpulse_bridge.Base.{Bool, Option, none, some, Bool-cases, inl, inr, str_eq, not}
use agentpulse_bridge.Base.Text.{Text, ℤ, codes, starts_with}
use agentpulse_bridge.Classify.Event.{EventType, Payload, NeedsInput, VerificationResult, Runner}
use agentpulse_bridge.Classify.State.{
  SessionState, ChainRef, main_chain, detached, get_chain, is_overflow, PendingVerification,
}
use agentpulse_bridge.Classify.Input.{HookInput, Hook, hook_of, tool_of}
use agentpulse_bridge.Classify.Env.{Env}
use agentpulse_bridge.Classify.Build.{Call, Handled, emit}
use agentpulse_bridge.Classify.Handlers.{
  classify, dispatch, call_of, classify_pre_tool_use, classify_post_tool_use, finish, finish_pr,
  finish_other, classify_permission_request, classify_notification, notify, in_chain, main_only,
  subagent_only, stop_subagent, chain_id, is_repeated, start_subagent, classify_stop_failure,
  classify_quota_notification, classify_session_start, classify_user_prompt_submit, classify_stop,
  classify_session_end, parse_pr_number,
}
use agentpulse_bridge.Classify.Stamps.{
  AnyStamped, nothing-AnyStamped, emit-AnyStamped, needs_input-AnyStamped, use_tool-AnyStamped,
}

module _ (env : Env) (parse_result : Runner → Bool → Text → VerificationResult) where
  finish_pr-AnyStamped :
      (call : Call) (s : SessionState) (ref : ChainRef) (o : Option ℤ)
      → AnyStamped env parse_result call (finish_pr env parse_result call s ref o)
  finish_pr-AnyStamped call s ref none = (nothing-AnyStamped env parse_result call _)
  finish_pr-AnyStamped call s ref (some n) = emit-AnyStamped env parse_result call s ref _ _

  finish_other-AnyStamped :
      (call : Call) (s : SessionState) (ref : ChainRef) (o : Option NeedsInput)
      → AnyStamped env parse_result call (finish_other env parse_result call s ref o)
  finish_other-AnyStamped call s ref none = (nothing-AnyStamped env parse_result call _)
  finish_other-AnyStamped call s ref (some k) = emit-AnyStamped env parse_result call _ ref _ _

  finish-AnyStamped :
      (call : Call) (s : SessionState) (ref : ChainRef) (o : Option PendingVerification) (t : Text)
      → AnyStamped env parse_result call (finish env parse_result call s ref o t)
  finish-AnyStamped call s ref (some pv) t = emit-AnyStamped env parse_result call _ ref _ _
  finish-AnyStamped call s ref none t = elim (Bool-cases (get_chain s ref).pr_pending) [
    | inl pr ↦ rw pr (finish_pr-AnyStamped call _ ref (parse_pr_number env parse_result t))
    | inr no_pr ↦ elim (Bool-cases (get_chain s ref).commit_pending) [
      | inl commit ↦ rw (no_pr, commit) (emit-AnyStamped env parse_result call _ ref _ _)
      | inr no_commit ↦
          rw (no_pr, no_commit)
            (finish_other-AnyStamped call s ref (get_chain s ref).pending_needs_input)
    ]
  ]

  post-AnyStamped :
      (call : Call) (s : SessionState) (ref : ChainRef)
      → AnyStamped env parse_result call (classify_post_tool_use env parse_result call s ref)
  unfolding classify_post_tool_use
  post-AnyStamped call s ref = elim (Bool-cases (is_overflow ref)) [
    | inl shared ↦ rw shared (nothing-AnyStamped env parse_result call s)
    | inr own ↦ rw own (
        finish-AnyStamped call s ref (get_chain s ref).pending_verification
          (env.extract_response_text call.input.tool_response))
  ]

  notification-AnyStamped :
      (call : Call) (s : SessionState) (ref : ChainRef)
      → AnyStamped env parse_result call (classify_notification env parse_result call s ref)
  unfolding classify_notification
  notification-AnyStamped call s ref =
      elim (Bool-cases (starts_with (codes "Claude needs your permission") call.input.message)) [
        | inr other ↦ rw other (nothing-AnyStamped env parse_result call s)
        | inl asks ↦ elim (Bool-cases (is_repeated env parse_result call s)) [
          | inl repeated ↦ rw (asks, repeated) (nothing-AnyStamped env parse_result call s)
          | inr fresh ↦
              rw (asks, fresh)
                (needs_input-AnyStamped env parse_result call s ref NeedsInput.permission none)
        ]
      ]

  pre-AnyStamped :
      (call : Call) (s : SessionState) (ref : ChainRef)
      → AnyStamped env parse_result call (classify_pre_tool_use env parse_result call s ref)
  unfolding classify_pre_tool_use
  pre-AnyStamped call s ref =
      use_tool-AnyStamped env parse_result (tool_of call.input.tool_name) call _ ref

  permission-AnyStamped :
      (call : Call) (s : SessionState) (ref : ChainRef)
      → AnyStamped env parse_result call (classify_permission_request env parse_result call s ref)
  unfolding classify_permission_request
  permission-AnyStamped call s ref = needs_input-AnyStamped env parse_result call _ ref _ _

  notify-AnyStamped :
      (call : Call) (s : SessionState)
      → AnyStamped env parse_result call
          (notify env parse_result call s (classify_quota_notification env parse_result call s))
  unfolding classify_quota_notification
  notify-AnyStamped call s =
      let kind = call.input.notification_type in
      elim (Bool-cases (str_eq kind "quota_auto_resume_stale")) [
        | inl stale ↦ elim (Bool-cases (not (str_eq call.input.agent_id ""))) [
          | inl inside ↦ rw (stale, inside) (nothing-AnyStamped env parse_result call s)
          | inr outside ↦
              rw (stale, outside) (emit-AnyStamped env parse_result call s main_chain _ _)
        ]
        | inr not_stale ↦ elim (Bool-cases (str_eq kind "quota_auto_resume_fired")) [
          | inl fired ↦ rw (not_stale, fired) (nothing-AnyStamped env parse_result call s)
          | inr not_fired ↦ elim (Bool-cases (str_eq kind "quota_auto_resume_disabled")) [
            | inl off ↦ rw (not_stale, not_fired, off) (nothing-AnyStamped env parse_result call s)
            | inr other ↦ rw (not_stale, not_fired, other) (notification-AnyStamped call _ _)
          ]
        ]
      ]

  failure-AnyStamped :
      (call : Call) (s : SessionState)
      → AnyStamped env parse_result call (classify_stop_failure env parse_result call s)
  unfolding classify_stop_failure
  failure-AnyStamped call s = elim (Bool-cases (not (str_eq call.input.agent_id ""))) [
    | inl inside ↦ rw inside (nothing-AnyStamped env parse_result call s)
    | inr outside ↦ rw outside (emit-AnyStamped env parse_result call s main_chain _ _)
  ]

  main_only-AnyStamped :
      (handler : Call → SessionState → Handled) (call : Call) (s : SessionState)
      → AnyStamped env parse_result call (handler call s)
      → AnyStamped env parse_result call (main_only env parse_result handler call s)
  main_only-AnyStamped handler call s h =
      elim (Bool-cases (str_eq (chain_id env parse_result call) "")) [
        | inl unnamed ↦ rw unnamed h
        | inr named ↦ rw named (nothing-AnyStamped env parse_result call s)
      ]

  subagent_only-AnyStamped :
      (handler : Call → SessionState → Handled) (call : Call) (s : SessionState)
      → AnyStamped env parse_result call (handler call s)
      → AnyStamped env parse_result call (subagent_only env parse_result handler call s)
  subagent_only-AnyStamped handler call s h =
      elim (Bool-cases (str_eq (chain_id env parse_result call) "")) [
        | inl unnamed ↦ rw unnamed (nothing-AnyStamped env parse_result call s)
        | inr named ↦ rw named h
      ]

  -- Deleting a subagent's chain changes no counter.
  stop-AnyStamped :
      (call : Call) (s : SessionState)
      → AnyStamped env parse_result call (stop_subagent env parse_result call s)
  unfolding emit
  stop-AnyStamped call s =
      let h =
        (emit-AnyStamped env parse_result call s detached EventType.subagent_stop
          Payload.empty_payload).stamped in
      record {
        stamped = record {
          read = h.read;
          edited = h.edited;
          runs = h.runs;
          commits = h.commits;
          session = h.session;
          time = h.time;
          envelope = h.envelope;
        };
      }

  dispatch-AnyStamped :
      (hook : Hook) (call : Call) (s : SessionState)
      → AnyStamped env parse_result call (dispatch env parse_result hook call s)
  unfolding dispatch classify_session_start classify_user_prompt_submit classify_stop
      classify_session_end
  dispatch-AnyStamped Hook.session_start call s =
      main_only-AnyStamped (classify_session_start env parse_result) call s
        (emit-AnyStamped env parse_result call _ main_chain _ _)
  dispatch-AnyStamped Hook.user_prompt_submit call s =
      main_only-AnyStamped (classify_user_prompt_submit env parse_result) call s
        (emit-AnyStamped env parse_result call _ main_chain _ _)
  dispatch-AnyStamped Hook.stop call s =
      main_only-AnyStamped (classify_stop env parse_result) call s
        (emit-AnyStamped env parse_result call _ main_chain _ _)
  dispatch-AnyStamped Hook.session_end call s =
      main_only-AnyStamped (classify_session_end env parse_result) call s
        (emit-AnyStamped env parse_result call _ main_chain _ _)
  dispatch-AnyStamped Hook.pre_tool_use call s = pre-AnyStamped call _ _
  dispatch-AnyStamped Hook.post_tool_use call s = post-AnyStamped call _ _
  dispatch-AnyStamped Hook.permission_request call s = permission-AnyStamped call _ _
  dispatch-AnyStamped Hook.notification call s = notify-AnyStamped call s
  dispatch-AnyStamped Hook.stop_failure call s = failure-AnyStamped call s
  dispatch-AnyStamped Hook.subagent_start call s =
      subagent_only-AnyStamped (in_chain env parse_result (start_subagent env parse_result)) call s
        (emit-AnyStamped env parse_result call _ _ _ _)
  dispatch-AnyStamped Hook.subagent_stop call s =
      subagent_only-AnyStamped (stop_subagent env parse_result) call s (stop-AnyStamped call s)
  dispatch-AnyStamped Hook.pre_compact call s = nothing-AnyStamped env parse_result call s
  dispatch-AnyStamped Hook.unknown_hook call s = nothing-AnyStamped env parse_result call s

  -- Every event that `Classify` gives carries the counters of the state that it leaves, the call's
  -- session and time, and the subagent that the call is in, if it is in one.
  pub classify-AnyStamped :
      (input : HookInput) (s : SessionState)
      → AnyStamped env parse_result
          (call_of env parse_result input)
          (classify env parse_result input s)
  unfolding classify
  classify-AnyStamped input s =
      dispatch-AnyStamped (hook_of input.hook_event_name) (call_of env parse_result input) s
