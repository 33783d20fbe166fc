-- ===== src/Classify/Pairing.antt =====
-- internal/classify/classify.go: a verification that the main chain starts is finished by its own
-- next PostToolUse, whatever subagents do in between.
use mathlib.Core.Option
use agentpulse_bridge.Base.{
  ℕ, ◌+◌, ◌≡◌, refl, ap, ◌∙◌, Bool, true, false, Option, none, some, List, [], ◌∷◌, All,
}
use agentpulse_bridge.Base.Text.{Text}
use agentpulse_bridge.Classify.Event.{
  Payload, verification_started_payload, verification_finished_payload, VerificationResult, Runner,
}
use agentpulse_bridge.Classify.State.{
  ChainState, SessionState, main_chain, get_chain, set_chain, chain, PendingVerification,
}
use agentpulse_bridge.Classify.Input.{HookInput, Hook, hook_of, Tool, tool_of, in_subagent}
use agentpulse_bridge.Classify.Env.{Env}
use agentpulse_bridge.Classify.Runners.{
  Detected, detect_runner, normalize, gh_pr_create_pattern, git_commit_pattern,
}
use agentpulse_bridge.Classify.Build.{Handled, subagent_for, emit}
use agentpulse_bridge.Classify.Handlers.{
  classify, classify_pre_tool_use, classify_pre_tool_use_bash, use_tool, classify_post_tool_use,
}
use agentpulse_bridge.Classify.Isolation.{classify_isolates, NamesSubagents}

module _ (env : Env) (parse_result : Runner → Bool → Text → VerificationResult) where
  -- The state after a session's hooks, in order.
  unfoldable pub run : List HookInput → SessionState → SessionState
  run [] s = s
  run (i ∷ is) s = run is (classify env parse_result i s).0

  abbrev pub payload_of : Handled → Option Payload
  payload_of handled = Option.map (λ e. e.payload) handled.1

  run-main :
      (is : List HookInput) (s : SessionState)
      → NamesSubagents env parse_result
      → All (λ i. in_subagent i ≡ true) is
      → (run is s).main ≡ s.main
  unfolding run
  run-main [] s names inside = refl
  run-main (i ∷ is) s names inside =
      run-main is (classify env parse_result i s).0 names inside.1
      ∙ (classify_isolates env parse_result i s names).0 inside.0

  -- The hook is a call of a runner by the Bash tool, on the main chain.
  pub record StartsRunner (i : HookInput) (d : Detected) : Type 0 where
    pub hook : hook_of i.hook_event_name ≡ Hook.pre_tool_use
    pub tool : tool_of i.tool_name ≡ Tool.bash
    pub outside : in_subagent i ≡ false
    pub no_pr :
        env.regexp.is_match gh_pr_create_pattern
          (normalize env.regexp (env.decode_tool_input i.tool_input).command)
        ≡ false
    pub no_commit :
        env.regexp.is_match git_commit_pattern
          (normalize env.regexp (env.decode_tool_input i.tool_input).command)
        ≡ false
    pub detected : detect_runner env.regexp (env.decode_tool_input i.tool_input).command ≡ some d

  abbrev marker : Detected → PendingVerification
  marker d = record { runner = d.id; kind = d.kind; go_verbose = d.go_verbose }

  chain_main : (s : SessionState) (now : ℕ) → chain s "" now ≡ (s, main_chain)
  unfolding chain
  chain_main s now = refl

  started :
      (i : HookInput) (d : Detected) (s : SessionState)
      → StartsRunner i d
      → (payload_of (classify env parse_result i s)
          ≡ some (verification_started_payload d.kind d.id))
        × ((classify env parse_result i s).0.main.pending_verification ≡ some (marker d))
  unfolding classify subagent_for classify_pre_tool_use use_tool classify_pre_tool_use_bash emit
      get_chain set_chain
  started i d s h =
      rw (h.hook, h.outside, chain_main, h.tool, h.no_pr, h.no_commit, h.detected) (refl, refl)

  finished :
      (i : HookInput) (pv : PendingVerification) (s : SessionState)
      → hook_of i.hook_event_name ≡ Hook.post_tool_use
      → in_subagent i ≡ false
      → s.main.pending_verification ≡ some pv
      → (payload_of (classify env parse_result i s)
          ≡ some (
              verification_finished_payload pv.kind pv.runner
                (parse_result pv.runner pv.go_verbose (env.extract_response_text i.tool_response))))
        × ((classify env parse_result i s).0.verification_runs ≡ s.verification_runs + 1)
        × ((classify env parse_result i s).0.main.pending_verification ≡ none)
  unfolding classify subagent_for classify_post_tool_use emit get_chain set_chain
  finished i pv s hook outside pending =
      rw (hook, outside, chain_main) (rw pending (refl, refl, refl))

  -- A PreToolUse of the main chain that runs a verification emits verification_started. After any
  -- number of hooks inside subagents, the main chain's next PostToolUse emits verification_finished
  -- with the same kind and runner and the result parsed from its own response, counts one more run,
  -- and leaves nothing pending.
  pub verification_pairs :
      (pre post : HookInput) (between : List HookInput) (d : Detected) (s : SessionState)
      → NamesSubagents env parse_result
      → StartsRunner pre d
      → All (λ i. in_subagent i ≡ true) between
      → hook_of post.hook_event_name ≡ Hook.post_tool_use
      → in_subagent post ≡ false
      → let before = run between (classify env parse_result pre s).0 in
        (payload_of (classify env parse_result pre s)
          ≡ some (verification_started_payload d.kind d.id))
        × (payload_of (classify env parse_result post before)
            ≡ some (
                verification_finished_payload d.kind d.id
                  (parse_result d.id d.go_verbose (env.extract_response_text post.tool_response))))
        × ((classify env parse_result post before).0.verification_runs
            ≡ before.verification_runs + 1)
        × ((classify env parse_result post before).0.main.pending_verification ≡ none)
  verification_pairs pre post between d s names starts inside hook outside =
      let (begins, pending) = started pre d s starts in
      let kept =
        ap (λ (c : ChainState). c.pending_verification)
          (run-main between (classify env parse_result pre s).0 names inside) in
      let (ends, counted, cleared) =
        finished post (marker d) (run between (classify env parse_result pre s).0) hook outside
          (kept ∙ pending) in
      (begins, ends, counted, cleared)
