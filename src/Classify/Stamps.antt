-- ===== src/Classify/Stamps.antt =====
-- internal/classify/classify.go: what stands on every event that `Classify` gives.
pub mod Hooks
use agentpulse_bridge.Base.{
  ℕ, ◌≡◌, refl, Bool, true, false, Option, none, some, String, List, [], ◌∷◌, if◌then◌else◌, length,
  Bool-cases, inl, inr, str_eq, not,
}
use agentpulse_bridge.Base.Text.{Text, ℤ, codes, starts_with}
use agentpulse_bridge.Classify.Event.{
  Event, EventType, Category, Payload, NeedsInput, ToolCategory, VerificationResult, Runner,
}
use agentpulse_bridge.Classify.State.{
  ChainState, SessionState, ChainRef, main_chain, subagent_chain, overflow_chain, detached,
  get_chain, set_chain, chain, is_overflow, PendingVerification,
}
use agentpulse_bridge.Classify.Input.{HookInput, Hook, hook_of, Tool, tool_of}
use agentpulse_bridge.Classify.Env.{Env}
use agentpulse_bridge.Classify.Runners.{
  Detected, detect_runner, normalize, gh_pr_create_pattern, git_commit_pattern,
}
use agentpulse_bridge.Classify.Build.{
  Call, Handled, subagent_for, emit, activity_event, needs_input_event, should_emit_activity,
}
use agentpulse_bridge.Classify.Handlers.{
  classify, dispatch, call_of, classify_pre_tool_use, classify_pre_tool_use_bash, use_tool, ask,
  start_verification, classify_post_tool_use, finish, finish_pr, finish_other,
  classify_permission_request, classify_notification, notify, in_chain, main_only, subagent_only,
  stop_subagent, chain_id, is_repeated, start_subagent, classify_stop_failure,
  classify_quota_notification, classify_session_start, classify_user_prompt_submit, classify_stop,
  classify_session_end, parse_pr_number,
}

module _ (env : Env) (parse_result : Runner → Bool → Text → VerificationResult) where
  -- The event of a call, against the state after it.
  pub record IsStamped (call : Call) (s : SessionState) (e : Event) : Type 0 where
    pub read : e.counters.files_read ≡ length s.read_hashes
    pub edited : e.counters.files_edited ≡ length s.edit_hashes
    pub runs : e.counters.verification_runs ≡ s.verification_runs
    pub commits : e.counters.commits ≡ s.commits
    pub session : e.session_id ≡ call.input.session_id
    pub time : e.ts ≡ env.format_ts call.now
    pub envelope : e.subagent ≡ call.subagent

  abbrev pub HasStamp : Call → SessionState → Option Event → Type 0
  HasStamp call s none = Unit
  HasStamp call s (some e) = IsStamped call s e

  pub record AnyStamped (call : Call) (handled : Handled) : Type 0 where
    pub stamped : HasStamp call handled.0 handled.1

  pub nothing-AnyStamped : (call : Call) (s : SessionState) → AnyStamped call (s, none)
  nothing-AnyStamped call s = record { stamped = tt }

  pub emit-AnyStamped :
      (call : Call) (s : SessionState) (ref : ChainRef) (t : EventType) (p : Payload)
      → AnyStamped call (emit env call s ref t p)
  unfolding emit
  emit-AnyStamped call s ref t p = record {
    stamped = record {
      read = refl;
      edited = refl;
      runs = refl;
      commits = refl;
      session = refl;
      time = refl;
      envelope = refl;
    };
  }

  -- A chain's state holds no counter.
  set_chain-IsStamped :
      (call : Call) (s : SessionState) (ref : ChainRef) (c : ChainState) (e : Event)
      → IsStamped call s e
      → IsStamped call (set_chain s ref c) e
  unfolding set_chain
  set_chain-IsStamped call s main_chain c e h = record {
    read = h.read;
    edited = h.edited;
    runs = h.runs;
    commits = h.commits;
    session = h.session;
    time = h.time;
    envelope = h.envelope;
  }
  set_chain-IsStamped call s (subagent_chain id) c e h = record {
    read = h.read;
    edited = h.edited;
    runs = h.runs;
    commits = h.commits;
    session = h.session;
    time = h.time;
    envelope = h.envelope;
  }
  set_chain-IsStamped call s overflow_chain c e h = record {
    read = h.read;
    edited = h.edited;
    runs = h.runs;
    commits = h.commits;
    session = h.session;
    time = h.time;
    envelope = h.envelope;
  }
  set_chain-IsStamped call s detached c e h = h

  pub activity-AnyStamped :
      (call : Call) (s : SessionState) (ref : ChainRef) (c : Category)
      → AnyStamped call (activity_event env call s ref c)
  unfolding activity_event emit
  activity-AnyStamped call s ref c =
      elim (Bool-cases (should_emit_activity env (get_chain s ref) c call.now)) [
        | inr suppressed ↦ rw suppressed (nothing-AnyStamped call s)
        | inl emits ↦
            let emitted =
              emit-AnyStamped call s ref EventType.activity (Payload.activity_payload c) in
            rw emits (record { stamped = set_chain-IsStamped call _ ref _ _ emitted.stamped })
      ]

  pub needs_input-AnyStamped :
      (call : Call) (s : SessionState) (ref : ChainRef) (k : NeedsInput) (c : Option ToolCategory)
      → AnyStamped call (needs_input_event env call s ref k c)
  unfolding needs_input_event
  needs_input-AnyStamped call s ref k c =
      emit-AnyStamped call _ ref EventType.needs_input (Payload.needs_input_payload k c)

  start-AnyStamped :
      (call : Call) (s : SessionState) (ref : ChainRef) (o : Option Detected)
      → AnyStamped call (start_verification env parse_result call s ref o)
  start-AnyStamped call s ref none = activity-AnyStamped call s ref Category.other
  start-AnyStamped call s ref (some d) = emit-AnyStamped call _ ref _ _

  bash-AnyStamped :
      (call : Call) (s : SessionState) (ref : ChainRef)
      → AnyStamped call (classify_pre_tool_use_bash env parse_result call s ref)
  unfolding classify_pre_tool_use_bash
  bash-AnyStamped call s ref =
      let text = (env.decode_tool_input call.input.tool_input).command in
      let seg = normalize env.regexp text in
      elim (Bool-cases (env.regexp.is_match gh_pr_create_pattern seg)) [
        | inl pr ↦ rw pr (activity-AnyStamped call _ ref Category.other)
        | inr no_pr ↦ elim (Bool-cases (env.regexp.is_match git_commit_pattern seg)) [
          | inl commit ↦ rw (no_pr, commit) (activity-AnyStamped call _ ref Category.other)
          | inr no_commit ↦
              rw (no_pr, no_commit) (start-AnyStamped call s ref (detect_runner env.regexp text))
        ]
      ]

  pub use_tool-AnyStamped :
      (tool : Tool) (call : Call) (s : SessionState) (ref : ChainRef)
      → AnyStamped call (use_tool env parse_result tool call s ref)
  unfolding use_tool
  use_tool-AnyStamped Tool.ask_user_question call s ref = needs_input-AnyStamped call _ ref _ _
  use_tool-AnyStamped Tool.exit_plan_mode call s ref = needs_input-AnyStamped call _ ref _ _
  use_tool-AnyStamped Tool.bash call s ref = elim (Bool-cases (is_overflow ref)) [
    | inl shared ↦ rw shared (activity-AnyStamped call s ref _)
    | inr own ↦ rw own (bash-AnyStamped call s ref)
  ]
  use_tool-AnyStamped _ call s ref = activity-AnyStamped call _ ref _
