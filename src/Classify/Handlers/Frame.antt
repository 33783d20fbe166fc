-- ===== src/Classify/Handlers/Frame.antt =====
-- internal/classify/classify.go: a handler that is given a chain writes to no other chain.
use agentpulse_bridge.Base.{◌≡◌, refl, inl, inr, Bool, Option, none, some, Bool-cases, Option-cases}
use agentpulse_bridge.Base.Text.{Text, ℤ, codes, starts_with}
use agentpulse_bridge.Classify.Event.{
  EventType, Category, Payload, NeedsInput, ToolCategory, VerificationResult, Runner,
}
use agentpulse_bridge.Classify.State.{
  ChainState, SessionState, ChainRef, get_chain, set_chain, is_overflow, PendingVerification,
}
use agentpulse_bridge.Classify.Input.{Tool, tool_of}
use agentpulse_bridge.Classify.Env.{Env}
use agentpulse_bridge.Classify.Runners.{
  detect_runner, normalize, gh_pr_create_pattern, git_commit_pattern,
}
use agentpulse_bridge.Classify.Build.{
  Call, emit, activity_event, needs_input_event, should_emit_activity,
}
use agentpulse_bridge.Classify.Handlers.{
  classify_pre_tool_use_bash, use_tool, ask, classify_pre_tool_use, classify_post_tool_use,
  classify_permission_request, classify_notification, tool_category, is_repeated, finish, finish_pr,
  finish_other, parse_pr_number,
}

-- The two states hold the same chains.
abbrev pub SameChains : SessionState → SessionState → Type 0
SameChains s t = (t.main ≡ s.main) × (t.subagents ≡ s.subagents) × (t.overflow ≡ s.overflow)

-- A property that survives every write through `ref` and every change outside the chains.
pub record IsStable (ref : ChainRef) (P : SessionState → Type 0) : Type 0 where
  pub write : (s : SessionState) (c : ChainState) → P s → P (set_chain s ref c)
  pub outside : (s t : SessionState) → SameChains s t → P s → P t

module _ (env : Env) (parse_result : Runner → Bool → Text → VerificationResult) (ref : ChainRef)
    (P : SessionState → Type 0) (stable : IsStable ref P) where
  pub emit-stable :
      (call : Call) (s : SessionState) (t : EventType) (p : Payload)
      → P s
      → P (emit env call s ref t p).0
  unfolding emit
  emit-stable call s t p h =
      stable.outside _ _ (refl, refl, refl)
        (stable.write s (record (get_chain s ref) { last_emitted_at = call.now }) h)

  pub activity_event-stable :
      (call : Call) (s : SessionState) (c : Category) → P s → P (activity_event env call s ref c).0
  unfolding activity_event
  activity_event-stable call s c h =
      elim (Bool-cases (should_emit_activity env (get_chain s ref) c call.now)) [
        | inl sends ↦ rw sends (
            stable.write _ _ (
              stable.outside _ _ (refl, refl, refl)
                (stable.write s (record (get_chain s ref) { last_emitted_at = call.now }) h)))
        | inr quiet ↦ rw quiet h
      ]

  pub needs_input_event-stable :
      (call : Call) (s : SessionState) (k : NeedsInput) (c : Option ToolCategory)
      → P s
      → P (needs_input_event env call s ref k c).0
  unfolding needs_input_event
  needs_input_event-stable call s k c h =
      emit-stable call _ EventType.needs_input (Payload.needs_input_payload k c)
        (stable.write s _ h)

  bash-stable :
      (call : Call) (s : SessionState)
      → P s
      → P (classify_pre_tool_use_bash env parse_result call s ref).0
  unfolding classify_pre_tool_use_bash
  bash-stable call s h =
      let text = (env.decode_tool_input call.input.tool_input).command in
      let seg = normalize env.regexp text in
      elim (Bool-cases (env.regexp.is_match gh_pr_create_pattern seg)) [
        | inl pr ↦ rw pr (activity_event-stable call _ _ (stable.write s _ h))
        | inr no_pr ↦ elim (Bool-cases (env.regexp.is_match git_commit_pattern seg)) [
          | inl commit ↦ rw (no_pr, commit) (activity_event-stable call _ _ (stable.write s _ h))
          | inr no_commit ↦ elim (Option-cases (detect_runner env.regexp text)) [
            | inl other ↦ rw (no_pr, no_commit, other) (activity_event-stable call s _ h)
            | inr (d, found) ↦
                rw (no_pr, no_commit, found)
                  (emit-stable call _ EventType.verification_started
                    (Payload.verification_started_payload d.kind d.id) (stable.write s _ h))
          ]
        ]
      ]

  asking-stable :
      (call : Call) (s : SessionState) (k : NeedsInput)
      → P s
      → P (ask env parse_result call s ref k).0
  asking-stable call s k h = elim (Bool-cases (is_overflow ref)) [
    | inl shared ↦ rw shared (needs_input_event-stable call s k none h)
    | inr own ↦ rw own (needs_input_event-stable call _ k none (stable.write s _ h))
  ]

  use_tool-stable :
      (tool : Tool) (call : Call) (s : SessionState)
      → P s
      → P (use_tool env parse_result tool call s ref).0
  unfolding use_tool
  use_tool-stable Tool.ask_user_question call s h = asking-stable call s _ h
  use_tool-stable Tool.exit_plan_mode call s h = asking-stable call s _ h
  use_tool-stable Tool.bash call s h = elim (Bool-cases (is_overflow ref)) [
    | inl shared ↦ rw shared (activity_event-stable call s _ h)
    | inr own ↦ rw own (bash-stable call s h)
  ]
  use_tool-stable _ call s h =
      activity_event-stable call _ _ (stable.outside _ _ (refl, refl, refl) h)

  pub classify_pre_tool_use-stable :
      (call : Call) (s : SessionState)
      → P s
      → P (classify_pre_tool_use env parse_result call s ref).0
  unfolding classify_pre_tool_use
  classify_pre_tool_use-stable call s h =
      use_tool-stable (tool_of call.input.tool_name) call _ (stable.write s _ h)

  finish_other-stable :
      (call : Call) (s : SessionState) (o : Option NeedsInput)
      → P s
      → P (finish_other env parse_result call s ref o).0
  finish_other-stable call s none h = h
  finish_other-stable call s (some k) h =
      emit-stable call _ EventType.input_resolved Payload.empty_payload (stable.write s _ h)

  finish_pr-stable :
      (call : Call) (s : SessionState) (o : Option ℤ)
      → P s
      → P (finish_pr env parse_result call s ref o).0
  finish_pr-stable call s none h = h
  finish_pr-stable call s (some n) h =
      emit-stable call s EventType.pr_created (Payload.pr_created_payload n) h

  finish-stable :
      (call : Call) (s : SessionState) (o : Option PendingVerification) (output : Text)
      → P s
      → P (finish env parse_result call s ref o output).0
  finish-stable call s (some pv) output h =
      emit-stable call _ EventType.verification_finished
        (Payload.verification_finished_payload pv.kind pv.runner
          (parse_result pv.runner pv.go_verbose output))
        (stable.outside _ _ (refl, refl, refl) (stable.write s _ h))
  finish-stable call s none output h = elim (Bool-cases (get_chain s ref).pr_pending) [
    | inl pr ↦
        rw pr
          (finish_pr-stable call _ (parse_pr_number env parse_result output) (stable.write s _ h))
    | inr no_pr ↦ elim (Bool-cases (get_chain s ref).commit_pending) [
      | inl commit ↦
          rw (no_pr, commit)
            (emit-stable call _ EventType.commit Payload.empty_payload
              (stable.outside _ _ (refl, refl, refl) (stable.write s _ h)))
      | inr no_commit ↦
          rw (no_pr, no_commit) (finish_other-stable call s (get_chain s ref).pending_needs_input h)
    ]
  ]

  pub classify_post_tool_use-stable :
      (call : Call) (s : SessionState)
      → P s
      → P (classify_post_tool_use env parse_result call s ref).0
  unfolding classify_post_tool_use
  classify_post_tool_use-stable call s h = elim (Bool-cases (is_overflow ref)) [
    | inl shared ↦ rw shared h
    | inr own ↦ rw own (
        finish-stable call s (get_chain s ref).pending_verification
          (env.extract_response_text call.input.tool_response) h)
  ]

  pub classify_permission_request-stable :
      (call : Call) (s : SessionState)
      → P s
      → P (classify_permission_request env parse_result call s ref).0
  unfolding classify_permission_request
  classify_permission_request-stable call s h =
      needs_input_event-stable call _ NeedsInput.permission
        (some (tool_category (tool_of call.input.tool_name)))
        (stable.outside _ _ (refl, refl, refl) h)

  pub classify_notification-stable :
      (call : Call) (s : SessionState)
      → P s
      → P (classify_notification env parse_result call s ref).0
  unfolding classify_notification
  classify_notification-stable call s h =
      elim (Bool-cases (starts_with (codes "Claude needs your permission") call.input.message)) [
        | inr other ↦ rw other h
        | inl asks ↦ elim (Bool-cases (is_repeated env parse_result call s)) [
          | inl repeated ↦ rw (asks, repeated) h
          | inr fresh ↦
              rw (asks, fresh) (needs_input_event-stable call s NeedsInput.permission none h)
        ]
      ]
