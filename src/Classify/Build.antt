-- ===== src/Classify/Build.antt =====
-- internal/classify/classify.go: the envelope, `buildEvent`, and the suppression of activity events.
-- A handler takes the session's state and returns the new one with at most one event.
use agentpulse_bridge.Base.{
  ℕ, ◌+◌, ◌*◌, Bool, true, false, Option, none, some, String, leb, ◌==◌, str_eq, if◌then◌else◌,
  length,
}
use agentpulse_bridge.Base.Text.{Text}
use agentpulse_bridge.Classify.Event.{
  Event, EventType, activity, needs_input, Category, read, edit, other, Payload, activity_payload,
  needs_input_payload, NeedsInput, ToolCategory, Project, Subagent,
}
use agentpulse_bridge.Classify.State.{ChainState, SessionState, ChainRef, get_chain, set_chain}
use agentpulse_bridge.Classify.Input.{HookInput, in_subagent}
use agentpulse_bridge.Classify.Names.{subagent_type, project_name}
use agentpulse_bridge.Classify.Env.{Env}

abbrev pub suppression_window : ℕ
suppression_window = 5 * 60 * 1000000000

-- One call of `Classify`: its input, the envelope and the time, each settled once.
pub record Call : Type 0 where
  pub input : HookInput
  pub subagent : Option Subagent
  pub now : ℕ

-- The state after a handler, and its event.
abbrev pub Handled : Type 0
Handled = SessionState × Option Event

module _ (env : Env) where
  unfoldable pub subagent_for : HookInput → Option Subagent
  unfolding in_subagent subagent_type
  subagent_for i =
      if in_subagent i
      then some
          (record { id = env.subagent_id i.agent_id; agent_type = subagent_type i.agent_type })
      else none

  unfoldable pub derive_project : Text → Project
  derive_project cwd = record {
    key_hash = env.sha256_hex (env.project_key cwd);
    name = project_name (env.project_key cwd);
  }

  abbrev project_for : Option Subagent → Option Project → Project → Project
  project_for none remembered derived = derived
  project_for (some sub) none derived = derived
  project_for (some sub) (some p) derived = p

  -- Only a main-chain event remembers its project.
  abbrev remembered_project : Option Subagent → Option Project → Project → Option Project
  remembered_project none remembered derived = some derived
  remembered_project (some sub) remembered derived = remembered

  abbrev pub stamp : SessionState → ChainRef → ℕ → SessionState
  stamp s ref now = set_chain s ref (record (get_chain s ref) { last_emitted_at = now })

  abbrev bridge_id_of : String → String
  bridge_id_of id = if str_eq id "" then "brg_unpaired" else id

  unfoldable pub build_event :
      Call → SessionState → ChainRef → EventType → Payload → SessionState × Event
  build_event call state ref event_type payload =
      let input = call.input in
      let s = stamp state ref call.now in
      let derived = derive_project input.cwd in
      (
        record s { project = remembered_project call.subagent s.project derived },
        record {
          event_id = env.new_ulid call.now;
          bridge_id = bridge_id_of input.bridge_id;
          session_id = input.session_id;
          project = project_for call.subagent s.project derived;
          ts = env.format_ts call.now;
          event_type = event_type;
          counters = record {
            files_read = length s.read_hashes;
            files_edited = length s.edit_hashes;
            verification_runs = s.verification_runs;
            commits = s.commits;
          };
          payload = payload;
          subagent = call.subagent;
        },
      )

  -- `return buildEvent(...), true`
  unfoldable pub emit : Call → SessionState → ChainRef → EventType → Payload → Handled
  unfolding build_event
  emit call state ref event_type payload =
      let (s, e) = build_event call state ref event_type payload in (s, some e)

  abbrev same_category : Category → Category → Bool
  same_category read read = true
  same_category edit edit = true
  same_category other other = true
  same_category _ _ = false

  abbrev is_last_category : Option Category → Category → Bool
  is_last_category none category = false
  is_last_category (some last) category = same_category last category

  unfoldable pub should_emit_activity : ChainState → Category → ℕ → Bool
  should_emit_activity c category now =
      if is_last_category c.last_emitted_category category
      then (if c.last_emitted_at == 0
          then true
          else leb (c.last_emitted_at + suppression_window) now)
      else true

  abbrev with_category : SessionState → ChainRef → Category → SessionState
  with_category s ref category =
      set_chain s ref (record (get_chain s ref) { last_emitted_category = some category })

  unfoldable pub activity_event : Call → SessionState → ChainRef → Category → Handled
  unfolding build_event
  activity_event call state ref category =
      if should_emit_activity (get_chain state ref) category call.now
      then (let (s, e) = build_event call state ref activity (activity_payload category) in
          (with_category s ref category, some e))
      else (state, none)

  unfoldable pub needs_input_event :
      Call → SessionState → ChainRef → NeedsInput → Option ToolCategory → Handled
  unfolding emit
  needs_input_event call state ref kind tool_category =
      emit call
        (set_chain state ref (record (get_chain state ref) { last_needs_input_at = call.now })) ref
        needs_input (needs_input_payload kind tool_category)
