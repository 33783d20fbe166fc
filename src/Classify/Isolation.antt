-- ===== src/Classify/Isolation.antt =====
-- internal/classify: the main chain and the subagents' chains do not disturb one another.
use agentpulse_bridge.Base.{
  ℕ, ◌≡◌, refl, ◌∙◌, inl, inr, Bool, true, false, none, some, String, arith, str_eq, Bool-cases,
  Option-cases,
}
use agentpulse_bridge.Base.Text.{Text}
use agentpulse_bridge.Base.Dict.{lookup}
use agentpulse_bridge.Classify.Event.{EventType, Payload, VerificationResult, Runner}
use agentpulse_bridge.Classify.State.{
  ChainState, SessionState, ChainRef, main_chain, subagent_chain, overflow_chain, detached,
  set_chain, chain, is_at_cap, make_room,
}
use agentpulse_bridge.Classify.Input.{HookInput, Hook, hook_of, in_subagent}
use agentpulse_bridge.Classify.Env.{Env}
use agentpulse_bridge.Classify.Build.{Call, Handled, subagent_for, emit}
use agentpulse_bridge.Classify.Handlers.{
  dispatch, classify, call_of, in_chain, chain_id, notify, start_subagent,
  classify_quota_notification, classify_stop_failure, classify_pre_tool_use, classify_post_tool_use,
  classify_permission_request, classify_notification,
}
use agentpulse_bridge.Classify.Handlers.Frame.{
  IsStable, emit-stable, classify_pre_tool_use-stable, classify_post_tool_use-stable,
  classify_permission_request-stable, classify_notification-stable,
}

-- The chains that are not the main one.
abbrev pub IsAside : ChainRef → Type 0
IsAside main_chain = ⊥
IsAside _ = Unit

abbrev pub HasMain : SessionState → SessionState → Type 0
HasMain s t = t.main ≡ s.main

abbrev pub HasAside : SessionState → SessionState → Type 0
HasAside s t = (t.subagents ≡ s.subagents) × (t.overflow ≡ s.overflow)

inside_named : (input : HookInput) → in_subagent input ≡ true → str_eq input.agent_id "" ≡ false
unfolding in_subagent
inside_named input h = ground arith

pub aside-IsStable : (s : SessionState) (ref : ChainRef) → IsAside ref → IsStable ref (HasMain s)
aside-IsStable s ref aside = record {
  write = λ t c h. write t ref c aside h;
  outside = λ t u same h. same.0 ∙ h;
}
  where
    write :
        (t : SessionState) (r : ChainRef) (c : ChainState)
        → IsAside r
        → HasMain s t
        → HasMain s (set_chain t r c)
    write t main_chain c a h = absurd a
    write t (subagent_chain id) c a h = unfold set_chain in h
    write t overflow_chain c a h = unfold set_chain in h
    write t detached c a h = unfold set_chain in h

pub chain-IsAside :
    (s : SessionState) (id : String) (now : ℕ)
    → str_eq id "" ≡ false
    → HasMain s (chain s id now).0 × IsAside (chain s id now).1
unfolding chain
chain-IsAside s id now named = elim (Option-cases (lookup id s.subagents)) [
  | inr (c, known) ↦ rw (named, known) (refl, tt)
  | inl fresh ↦ elim (Bool-cases (is_at_cap (make_room now s.subagents))) [
    | inl full ↦ rw (named, fresh, full) (refl, tt)
    | inr room ↦ rw (named, fresh, room) (refl, tt)
  ]
]

module _ (env : Env) (parse_result : Runner → Bool → Text → VerificationResult) where
  -- A handler that is stable on every aside chain keeps the main chain when it runs on the call's own.
  in_chain-HasMain :
      (handler : Call → SessionState → ChainRef → Handled) (call : Call) (s : SessionState)
      → str_eq (chain_id env parse_result call) "" ≡ false
      → ((t : SessionState) (ref : ChainRef)
          → IsStable ref (HasMain s)
          → HasMain s t
          → HasMain s (handler call t ref).0)
      → HasMain s (in_chain env parse_result handler call s).0
  in_chain-HasMain handler call s named keeps =
      let (main, aside) = chain-IsAside s (chain_id env parse_result call) call.now named in
      keeps (chain s (chain_id env parse_result call) call.now).0
        (chain s (chain_id env parse_result call) call.now).1 (aside-IsStable s _ aside) main

  quota_aside :
      (call : Call) (s : SessionState) (handled : Handled)
      → str_eq call.input.agent_id "" ≡ false
      → classify_quota_notification env parse_result call s ≡ some handled
      → handled ≡ (s, none)
  unfolding classify_quota_notification
  quota_aside call s handled inside h = ground arith

  notify-HasMain :
      (call : Call) (s : SessionState)
      → str_eq (chain_id env parse_result call) "" ≡ false
      → str_eq call.input.agent_id "" ≡ false
      → HasMain s
          (notify env parse_result call s (classify_quota_notification env parse_result call s)).0
  notify-HasMain call s named inside =
      elim (Option-cases (classify_quota_notification env parse_result call s)) [
        | inr (handled, q) ↦ rw q (rw (quota_aside call s handled inside q) refl)
        | inl other ↦ rw other (
            in_chain-HasMain (classify_notification env parse_result) call s named (λ t ref st h.
              classify_notification-stable env parse_result ref (HasMain s) st call t h))
      ]

  -- Inside a subagent no hook changes the main chain.
  pub dispatch-HasMain :
      (hook : Hook) (call : Call) (s : SessionState)
      → str_eq (chain_id env parse_result call) "" ≡ false
      → str_eq call.input.agent_id "" ≡ false
      → HasMain s (dispatch env parse_result hook call s).0
  unfolding dispatch
  dispatch-HasMain Hook.session_start call s named inside = rw named refl
  dispatch-HasMain Hook.user_prompt_submit call s named inside = rw named refl
  dispatch-HasMain Hook.stop call s named inside = rw named refl
  dispatch-HasMain Hook.session_end call s named inside = rw named refl
  dispatch-HasMain Hook.pre_tool_use call s named inside =
      in_chain-HasMain (classify_pre_tool_use env parse_result) call s named
        (λ t ref st h. classify_pre_tool_use-stable env parse_result ref (HasMain s) st call t h)
  dispatch-HasMain Hook.post_tool_use call s named inside =
      in_chain-HasMain (classify_post_tool_use env parse_result) call s named
        (λ t ref st h. classify_post_tool_use-stable env parse_result ref (HasMain s) st call t h)
  dispatch-HasMain Hook.permission_request call s named inside =
      in_chain-HasMain (classify_permission_request env parse_result) call s named (λ t ref st h.
        classify_permission_request-stable env parse_result ref (HasMain s) st call t h)
  dispatch-HasMain Hook.notification call s named inside = notify-HasMain call s named inside
  dispatch-HasMain Hook.stop_failure call s named inside =
      unfold classify_stop_failure in rw inside refl
  dispatch-HasMain Hook.subagent_start call s named inside = rw named (
      in_chain-HasMain (start_subagent env parse_result) call s named (λ t ref st h.
        emit-stable env parse_result ref (HasMain s) st call t EventType.subagent_start
          Payload.empty_payload h))
  dispatch-HasMain Hook.subagent_stop call s named inside = rw named (unfold emit set_chain in refl)
  dispatch-HasMain Hook.pre_compact call s named inside = refl
  dispatch-HasMain Hook.unknown_hook call s named inside = refl

  -- The other way round: on the main chain no hook changes a subagent's chain or the shared one.
  main-IsStable : (s : SessionState) → IsStable main_chain (HasAside s)
  unfolding set_chain
  main-IsStable s = record {
    write = λ t c h. h;
    outside = λ t u same h. (same.1 ∙ h.0, same.2 ∙ h.1);
  }

  chain_main :
      (s : SessionState) (id : String) (now : ℕ)
      → str_eq id "" ≡ true
      → chain s id now ≡ (s, main_chain)
  unfolding chain
  chain_main s id now unnamed = rw unnamed

  quota_main :
      (call : Call) (s : SessionState) (handled : Handled)
      → classify_quota_notification env parse_result call s ≡ some handled
      → HasAside s handled.0
  unfolding classify_quota_notification emit set_chain
  quota_main call s handled h = ground arith

  notify-HasAside :
      (call : Call) (s : SessionState)
      → str_eq (chain_id env parse_result call) "" ≡ true
      → HasAside s
          (notify env parse_result call s (classify_quota_notification env parse_result call s)).0
  notify-HasAside call s unnamed =
      elim (Option-cases (classify_quota_notification env parse_result call s)) [
        | inr (handled, q) ↦ rw q (quota_main call s handled q)
        | inl other ↦ rw other (
            rw (chain_main s _ call.now unnamed) (
              classify_notification-stable env parse_result main_chain (HasAside s)
                (main-IsStable s) call s (refl, refl)))
      ]

  emitted_on_main :
      (call : Call) (s : SessionState) (t : EventType) (p : Payload)
      → HasAside s (emit env call s main_chain t p).0
  emitted_on_main call s t p =
      emit-stable env parse_result main_chain (HasAside s) (main-IsStable s) call s t p (refl, refl)

  stop_failure_main :
      (call : Call) (s : SessionState)
      → HasAside s (classify_stop_failure env parse_result call s).0
  unfolding classify_stop_failure emit set_chain
  stop_failure_main call s = ground arith

  pub dispatch-HasAside :
      (hook : Hook) (call : Call) (s : SessionState)
      → str_eq (chain_id env parse_result call) "" ≡ true
      → HasAside s (dispatch env parse_result hook call s).0
  unfolding dispatch
  dispatch-HasAside Hook.session_start call s unnamed =
      rw unnamed (unfold emit set_chain in (refl, refl))
  dispatch-HasAside Hook.user_prompt_submit call s unnamed =
      rw unnamed (unfold emit set_chain in (refl, refl))
  dispatch-HasAside Hook.stop call s unnamed = rw unnamed (unfold emit set_chain in (refl, refl))
  dispatch-HasAside Hook.session_end call s unnamed =
      rw unnamed (unfold emit set_chain in (refl, refl))
  dispatch-HasAside Hook.pre_tool_use call s unnamed = rw (chain_main s _ call.now unnamed) (
      classify_pre_tool_use-stable env parse_result main_chain (HasAside s) (main-IsStable s) call s
        (refl, refl))
  dispatch-HasAside Hook.post_tool_use call s unnamed = rw (chain_main s _ call.now unnamed) (
      classify_post_tool_use-stable env parse_result main_chain (HasAside s) (main-IsStable s) call
        s (refl, refl))
  dispatch-HasAside Hook.permission_request call s unnamed = rw (chain_main s _ call.now unnamed) (
      classify_permission_request-stable env parse_result main_chain (HasAside s) (main-IsStable s)
        call s (refl, refl))
  dispatch-HasAside Hook.notification call s unnamed = notify-HasAside call s unnamed
  dispatch-HasAside Hook.stop_failure call s unnamed = stop_failure_main call s
  dispatch-HasAside Hook.subagent_start call s unnamed = rw unnamed (refl, refl)
  dispatch-HasAside Hook.subagent_stop call s unnamed = rw unnamed (refl, refl)
  dispatch-HasAside Hook.pre_compact call s unnamed = (refl, refl)
  dispatch-HasAside Hook.unknown_hook call s unnamed = (refl, refl)

  -- `SubagentID` gives sixteen characters, so never the empty text.
  abbrev pub NamesSubagents : Type 0
  NamesSubagents = (agent_id : String) → str_eq (env.subagent_id agent_id) "" ≡ false

  -- A hook inside a subagent leaves the main chain's state as it was; any other hook leaves every
  -- subagent's chain and the shared one as they were. `NamesSubagents` says that no agent is hashed to the empty id.
  pub classify_isolates :
      (input : HookInput) (s : SessionState)
      → NamesSubagents
      → (in_subagent input ≡ true → (classify env parse_result input s).0.main ≡ s.main)
        × (in_subagent input ≡ false → HasAside s (classify env parse_result input s).0)
  unfolding classify subagent_for
  classify_isolates input s names = (
    λ inside.
        dispatch-HasMain (hook_of input.hook_event_name) (call_of env parse_result input) s
          (rw inside (names input.agent_id)) (inside_named input inside),
    λ outside.
        dispatch-HasAside (hook_of input.hook_event_name) (call_of env parse_result input) s
          (rw outside refl),
  )
