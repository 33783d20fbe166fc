-- ===== src/Tests/Classify.antt =====
-- Runs of internal/classify.
use agentpulse_bridge.Base.{◌+◌, ◌≡◌, refl, Bool, true, false, none, some, [], ◌∷◌, str_eq, arith}
use agentpulse_bridge.Base.Text.{Text, codes}
use agentpulse_bridge.Classify.Event.{
  Kind, verification_started_payload, verification_finished_payload, VerificationResult, Runner,
  Outcome, Os,
}
use agentpulse_bridge.Classify.State.{new_session_state}
use agentpulse_bridge.Classify.Input.{HookInput, in_subagent, hook_of, tool_of}
use agentpulse_bridge.Classify.Env.{Env, Regexp}
use agentpulse_bridge.Classify.Runners.{Detected, detect_runner, normalize}
use agentpulse_bridge.Classify.Handlers.{classify, call_of}
use agentpulse_bridge.Classify.Names.{subagent_type, project_name}
use agentpulse_bridge.Classify.Names.Wire.{
  IsWireType, IsWireName, subagent_type-IsWireType, project_name-IsWireName,
}
use agentpulse_bridge.Classify.Stamps.{AnyStamped}
use agentpulse_bridge.Classify.Stamps.Hooks.{classify-AnyStamped}
use agentpulse_bridge.Classify.Isolation.{classify_isolates, HasAside}
use agentpulse_bridge.Classify.Cap.{classify-IsCapped, IsCapped}
use agentpulse_bridge.Classify.Pairing.{run, payload_of, StartsRunner, verification_pairs}

-- An engine that knows one pattern, whatever the text.
abbrev regexp : Regexp
regexp = record {
  is_match = λ p t. str_eq p "^go test\\b";
  find = λ p t. none;
  find_all = λ p t. [];
}

abbrev pub env : Env
env = record {
  regexp = regexp;
  sha256_hex = λ t. "";
  hash_path = λ p. p;
  subagent_id = λ id. "sub";
  project_key = λ t. t;
  new_ulid = λ n. "ulid";
  format_ts = λ n. "now";
  decode_tool_input = λ b. record { command = b; file_path = ""; notebook_path = ""; path = "" };
  extract_response_text = λ b. b;
  os = Os.linux;
  wall_clock = 0;
}

abbrev passed : Runner → Bool → Text → VerificationResult
passed r v t = record { outcome = Outcome.pass; passed = none; failed = none; total = none }

abbrev pub before : HookInput
before = record {
  hook_event_name = "PreToolUse";
  session_id = "s";
  cwd = codes "/home/p";
  tool_name = "Bash";
  tool_input = codes "go test ./...";
  tool_response = [];
  prompt = [];
  message = [];
  reason = "";
  error = "";
  notification_type = "";
  agent_id = "";
  agent_type = [];
  now = 7;
  bridge_id = "b";
  bridge_version = "1";
  task_label_on = false;
  subagents_on = true;
}

abbrev after : HookInput
after = record before { hook_event_name = "PostToolUse"; tool_response = codes "ok" }

abbrev helper : HookInput
helper = record before { agent_id = "a"; agent_type = codes "Explore" }

abbrev go_test : Detected
go_test = record { id = Runner.go; kind = Kind.test; go_verbose = false }

classify_isolates_example :
    (in_subagent helper ≡ true
      → (classify env passed helper new_session_state).0.main ≡ new_session_state.main)
    × (in_subagent helper ≡ false
        → HasAside new_session_state (classify env passed helper new_session_state).0)
classify_isolates_example = classify_isolates env passed helper new_session_state (λ id. refl)

classify-IsCapped_example : IsCapped (classify env passed helper new_session_state).0
classify-IsCapped_example = classify-IsCapped env passed helper new_session_state (omega arith)

before-StartsRunner : StartsRunner env passed before go_test
unfolding hook_of tool_of in_subagent normalize detect_runner
before-StartsRunner = record {
  hook = refl;
  tool = refl;
  outside = refl;
  no_pr = refl;
  no_commit = refl;
  detected = refl;
}

helper-inside : in_subagent helper ≡ true
unfolding in_subagent
helper-inside = refl

after-outside : in_subagent after ≡ false
unfolding in_subagent
after-outside = refl

verification_pairs_example :
    let state = run env passed (helper ∷ []) (classify env passed before new_session_state).0 in
    (payload_of env passed (classify env passed before new_session_state)
      ≡ some (verification_started_payload Kind.test Runner.go))
    × (payload_of env passed (classify env passed after state)
        ≡ some (
            verification_finished_payload Kind.test Runner.go
              (passed Runner.go false (codes "ok"))))
    × ((classify env passed after state).0.verification_runs ≡ state.verification_runs + 1)
    × ((classify env passed after state).0.main.pending_verification ≡ none)
unfolding hook_of
verification_pairs_example =
    verification_pairs env passed before after (helper ∷ []) go_test new_session_state (λ id. refl)
      before-StartsRunner (helper-inside, tt) refl after-outside

classify-AnyStamped_example :
    AnyStamped env passed (call_of env passed helper) (classify env passed helper new_session_state)
classify-AnyStamped_example = classify-AnyStamped env passed helper new_session_state

subagent_type-IsWireType_example : IsWireType (subagent_type (codes " code-reviewer "))
subagent_type-IsWireType_example = subagent_type-IsWireType (codes " code-reviewer ")

project_name-IsWireName_example : IsWireName (project_name (codes "/home/u/work/"))
project_name-IsWireName_example = project_name-IsWireName (codes "/home/u/work/")
