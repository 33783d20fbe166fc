-- ===== src/Classify/Cap.antt =====
-- internal/classify/session_state.go: the cap on the subagents' chains.
use agentpulse_bridge.Base.{
  ℕ, ◌≤◌, ◌≡◌, inl, inr, Bool, false, some, String, [], ◌∷◌, arith, str_eq, eq_iff, length, keep_if,
  Bool-cases, Option-cases,
}
use agentpulse_bridge.Base.Text.{Text}
use agentpulse_bridge.Base.Dict.{
  Dict, lookup, insert, lookup-insert, length-insert_present, length-insert-le, length-remove-le,
}
use agentpulse_bridge.Classify.Event.{EventType, Payload, VerificationResult, Runner}
use agentpulse_bridge.Classify.State.{
  ChainState, empty_chain, SessionState, ChainRef, main_chain, subagent_chain, overflow_chain,
  detached, set_chain, chain, is_at_cap, is_live, make_room, max_subagent_chains,
}
use agentpulse_bridge.Classify.Input.{HookInput, Hook, hook_of}
use agentpulse_bridge.Classify.Env.{Env}
use agentpulse_bridge.Classify.Build.{Call, Handled, emit}
use agentpulse_bridge.Classify.Handlers.{
  dispatch, classify, call_of, in_chain, chain_id, start_subagent, classify_quota_notification,
  classify_stop_failure, classify_pre_tool_use, classify_post_tool_use, classify_permission_request,
  classify_notification,
}
use agentpulse_bridge.Classify.Handlers.Frame.{
  IsStable, emit-stable, classify_pre_tool_use-stable, classify_post_tool_use-stable,
  classify_permission_request-stable, classify_notification-stable,
}

abbrev pub IsCapped : SessionState → Type 0
IsCapped s = length s.subagents ≤ max_subagent_chains

-- A reference that `chain` gave: a subagent's own has its entry.
abbrev HasEntry : ChainRef → SessionState → Type 0
HasEntry (subagent_chain id) s = (c : ChainState) × (lookup id s.subagents ≡ some c)
HasEntry _ s = Unit

abbrev Ready : ChainRef → SessionState → Type 0
Ready ref s = IsCapped s × HasEntry ref s

write-Ready :
    (ref : ChainRef) (s : SessionState) (c : ChainState)
    → Ready ref s
    → Ready ref (set_chain s ref c)
unfolding set_chain
write-Ready main_chain s c h = h
write-Ready (subagent_chain id) s c (cap, (old, known)) = (
  rw (length-insert_present id c old s.subagents known) cap,
  (c, ground (arith, lookup-insert id id c s.subagents, eq_iff id id)),
)
write-Ready overflow_chain s c h = h
write-Ready detached s c h = h

HasEntry-outside :
    (ref : ChainRef) (s t : SessionState)
    → t.subagents ≡ s.subagents
    → HasEntry ref s
    → HasEntry ref t
HasEntry-outside (subagent_chain id) s t same (c, known) = (c, rw same known)
HasEntry-outside main_chain s t same h = tt
HasEntry-outside overflow_chain s t same h = tt
HasEntry-outside detached s t same h = tt

Ready-IsStable : (ref : ChainRef) → IsStable ref (Ready ref)
Ready-IsStable ref = record {
  write = write-Ready ref;
  outside = λ s t same h. (rw same.1 h.0, HasEntry-outside ref s t same.1 h.1);
}

length-keep_if-le :
    (p : String × ChainState → Bool) (m : Dict ChainState) → length (keep_if p m) ≤ length m
length-keep_if-le p [] = omega arith
length-keep_if-le p (e ∷ m) = elim (Bool-cases (p e)) [
  | inl kept ↦ rw kept (omega (arith, length-keep_if-le p m))
  | inr gone ↦ rw gone (omega (arith, length-keep_if-le p m))
]

make_room-le : (now : ℕ) (m : Dict ChainState) → length (make_room now m) ≤ length m
make_room-le now m = elim (Bool-cases (is_at_cap m)) [
  | inl full ↦ rw full (length-keep_if-le (is_live now) m)
  | inr room ↦ rw room (omega arith)
]

below_cap :
    (id : String) (m : Dict ChainState)
    → is_at_cap m ≡ false
    → length (insert id empty_chain m) ≤ max_subagent_chains
below_cap id m room = ground (arith, length-insert-le id empty_chain m)

-- `chain` gives a chain that exists, and adds an entry only where there is room for it.
chain-Ready :
    (s : SessionState) (id : String) (now : ℕ)
    → IsCapped s
    → Ready (chain s id now).1 (chain s id now).0
unfolding chain
chain-Ready s id now cap = elim (Bool-cases (str_eq id "")) [
  | inl unnamed ↦ rw unnamed (cap, tt)
  | inr named ↦ elim (Option-cases (lookup id s.subagents)) [
    | inr (c, known) ↦ rw (named, known) (cap, (c, known))
    | inl fresh ↦ elim (Bool-cases (is_at_cap (make_room now s.subagents))) [
      | inl full ↦ rw (named, fresh, full) (omega (arith, make_room-le now s.subagents), tt)
      | inr room ↦
          rw (named, fresh, room)
            (
              below_cap id (make_room now s.subagents) room,
              (
                empty_chain,
                ground (
                  arith,
                  lookup-insert id id empty_chain (make_room now s.subagents),
                  eq_iff id id,
                ),
              ),
            )
    ]
  ]
]

module _ (env : Env) (parse_result : Runner → Bool → Text → VerificationResult) where
  in_chain-IsCapped :
      (handler : Call → SessionState → ChainRef → Handled) (call : Call) (s : SessionState)
      → ((t : SessionState) (ref : ChainRef)
          → IsStable ref (Ready ref)
          → Ready ref t
          → Ready ref (handler call t ref).0)
      → IsCapped s
      → IsCapped (in_chain env parse_result handler call s).0
  in_chain-IsCapped handler call s keeps cap =
      let id = chain_id env parse_result call in
      (keeps (chain s id call.now).0 (chain s id call.now).1 (Ready-IsStable _)
        (chain-Ready s id call.now cap)).0

  quota-IsCapped :
      (call : Call) (s : SessionState) (handled : Handled)
      → classify_quota_notification env parse_result call s ≡ some handled
      → IsCapped s
      → IsCapped handled.0
  unfolding classify_quota_notification emit set_chain
  quota-IsCapped call s handled h cap = ground arith

  -- Every hook keeps the number of subagent chains at sixteen or fewer.
  dispatch-IsCapped :
      (hook : Hook) (call : Call) (s : SessionState)
      → IsCapped s
      → IsCapped (dispatch env parse_result hook call s).0
  unfolding dispatch
  dispatch-IsCapped Hook.session_start call s cap = unfold emit set_chain in ground arith
  dispatch-IsCapped Hook.user_prompt_submit call s cap = unfold emit set_chain in ground arith
  dispatch-IsCapped Hook.stop call s cap = unfold emit set_chain in ground arith
  dispatch-IsCapped Hook.session_end call s cap = unfold emit set_chain in ground arith
  dispatch-IsCapped Hook.pre_tool_use call s cap =
      in_chain-IsCapped (classify_pre_tool_use env parse_result) call s
        (λ t ref st h. classify_pre_tool_use-stable env parse_result ref (Ready ref) st call t h)
        cap
  dispatch-IsCapped Hook.post_tool_use call s cap =
      in_chain-IsCapped (classify_post_tool_use env parse_result) call s
        (λ t ref st h. classify_post_tool_use-stable env parse_result ref (Ready ref) st call t h)
        cap
  dispatch-IsCapped Hook.permission_request call s cap =
      in_chain-IsCapped (classify_permission_request env parse_result) call s
        (λ t ref st h.
          classify_permission_request-stable env parse_result ref (Ready ref) st call t h)
        cap
  dispatch-IsCapped Hook.notification call s cap =
      elim (Option-cases (classify_quota_notification env parse_result call s)) [
        | inr (handled, q) ↦ rw q (quota-IsCapped call s handled q cap)
        | inl other ↦ rw other (
            in_chain-IsCapped (classify_notification env parse_result) call s
              (λ t ref st h.
                classify_notification-stable env parse_result ref (Ready ref) st call t h)
              cap)
      ]
  dispatch-IsCapped Hook.stop_failure call s cap =
      unfold classify_stop_failure emit set_chain in ground arith
  dispatch-IsCapped Hook.subagent_start call s cap =
      elim (Bool-cases (str_eq (chain_id env parse_result call) "")) [
        | inl unnamed ↦ rw unnamed cap
        | inr named ↦ rw named (
            in_chain-IsCapped (start_subagent env parse_result) call s
              (λ t ref st h.
                emit-stable env parse_result ref (Ready ref) st call t EventType.subagent_start
                  Payload.empty_payload h)
              cap)
      ]
  dispatch-IsCapped Hook.subagent_stop call s cap =
      elim (Bool-cases (str_eq (chain_id env parse_result call) "")) [
        | inl unnamed ↦ rw unnamed cap
        | inr named ↦ rw named (
            unfold emit set_chain in
            omega (arith, length-remove-le (chain_id env parse_result call) s.subagents))
      ]
  dispatch-IsCapped Hook.pre_compact call s cap = cap
  dispatch-IsCapped Hook.unknown_hook call s cap = cap

  -- Whatever hook comes, a session with at most sixteen subagent chains has at most sixteen after it.
  pub classify-IsCapped :
      (input : HookInput) (s : SessionState)
      → IsCapped s
      → IsCapped (classify env parse_result input s).0
  unfolding classify
  classify-IsCapped input s cap =
      dispatch-IsCapped (hook_of input.hook_event_name) (call_of env parse_result input) s cap
