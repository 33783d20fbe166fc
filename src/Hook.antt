-- ===== src/Hook.antt =====
-- cmd/agentpulse/hook_classify.go with internal/scratch/scratch.go: one call of "agentpulse hook", from the
-- parsed document to what it leaves on disk. What fails is given by the surroundings.
pub mod Scratch
pub mod Spooling
pub mod Keeps
use agentpulse_bridge.Base.{
  ℕ, Bool, true, false, ◌&&◌, ◌||◌, not, ◌==◌, Option, none, some, String, List, [], ◌∷◌, str_eq,
  if◌then◌else◌, Bytes,
}
use agentpulse_bridge.Base.Text.{Text}
use agentpulse_bridge.Relay.Types.{Settings}
use agentpulse_bridge.Spool.Io
use agentpulse_bridge.Spool.Queue.{append}
use agentpulse_bridge.Watch.{File, Decision, spool, drop, emit_project_seen, decide}
use agentpulse_bridge.Flush.Types.{State}
use agentpulse_bridge.Flush.Waits.{subagents_paused}
use agentpulse_bridge.Classify.Env.{Env}
use agentpulse_bridge.Classify.Event.{Event, project_seen, empty_payload, Subagent}
use agentpulse_bridge.Classify.Input.{HookInput, in_subagent}
use agentpulse_bridge.Classify.State.{SessionState, new_session_state}
use agentpulse_bridge.Classify.Results.{parse_result}
use agentpulse_bridge.Classify.Handlers.{classify}
use agentpulse_bridge.Hook.Scratch.{sanitize_session_id, Sessions, load, store}

-- The files that the call reads and writes.
pub record Disk : Type 0 where
  pub sessions : Sessions
  pub watch_file : File
  pub spool_file : Option Bytes

pub record Config : Type 0 where
  pub bridge_id : String
  pub keep_awake : Bool

pub data KeepAwake : Type 0 where
  started : ℕ → KeepAwake
  not_supported start_failed : KeepAwake

pub data HookError : Type 0 where
  parse_failed config_failed keep_awake_failed save_failed delete_failed watch_failed
        marshal_failed :
      HookError
  spool_failed : Io.IoError → HookError

-- The clock, the other files and processes, the packages called, and which of the calls fail.
pub record Surroundings : Type 0 where
  pub env : Env
  pub parse_time : String → Option ℕ
  pub format_time : ℕ → String
  -- a Go string in the two forms that it has here
  pub as_string : Text → String
  pub marshal_event : Event → Option Bytes
  pub now : ℕ
  pub version : String
  pub config : Config
  pub config_fails : Bool
  pub flush_state : State
  pub start_keep_awake : KeepAwake
  pub save_fails : Bool
  pub delete_fails : Bool
  pub watch_save_fails : Bool
  pub spool_faults : Io.Faults

module _ (around : Surroundings) where
  abbrev pub task_label_on : Option Settings → Bool
  task_label_on none = false
  task_label_on (some settings) = settings.task_label

  -- The fields of the input that the document does not bring.
  unfoldable pub complete_input : HookInput → File → HookInput
  unfolding subagents_paused
  complete_input input file = record input {
    bridge_id = around.config.bridge_id;
    bridge_version = around.version;
    task_label_on = task_label_on file.settings;
    now = around.now;
    subagents_on =
        if str_eq input.agent_id ""
        then input.subagents_on
        else not (subagents_paused around.parse_time around.flush_state around.now);
  }

  abbrev pub with_pid : KeepAwake → SessionState → SessionState × Bool
  with_pid (started pid) s = (record s { keep_awake_pid = pid }, false)
  with_pid not_supported s = (s, false)
  with_pid start_failed s = (s, true)

  -- The state, and whether starting failed.
  unfoldable pub maybe_start_keep_awake : HookInput → SessionState → SessionState × Bool
  maybe_start_keep_awake input s =
      if not (str_eq input.hook_event_name "SessionStart")
        || not around.config.keep_awake
        || not (s.keep_awake_pid == 0)
      then (s, false)
      else with_pid around.start_keep_awake s

  unfoldable pub saved : Text → SessionState → Sessions → Sessions
  unfolding store
  saved key s sessions = if around.save_fails then sessions else store key (some s) sessions

  abbrev pub is_end : HookInput → Bool
  unfolding in_subagent
  is_end input = str_eq input.hook_event_name "SessionEnd" && not (in_subagent input)

  unfoldable pub deleted : HookInput → Text → Sessions → Sessions
  unfolding store is_end
  deleted input key sessions =
      if is_end input && not around.delete_fails then store key none sessions else sessions

  -- `watch.Save`
  abbrev pub saved_watch : File → File → File
  saved_watch old new = if around.watch_save_fails then old else new

  abbrev pub as_project_seen : Event → Event
  as_project_seen e = record e { event_type = project_seen; payload = empty_payload }

  -- The file, the event to spool, and whether saving failed.
  abbrev pub seen_or_nothing : File → File → Event → Option Subagent → File × Option Event × Bool
  seen_or_nothing old new e (some sub) = (old, none, false)
  seen_or_nothing old new e none =
      (saved_watch old new, some (as_project_seen e), around.watch_save_fails)

  abbrev pub obey : File → Event → File × Decision → File × Option Event × Bool
  obey old e (new, drop) = (old, none, false)
  obey old e (new, spool) = (saved_watch old new, some e, around.watch_save_fails)
  obey old e (new, emit_project_seen) = seen_or_nothing old new e e.subagent

  unfoldable pub apply_watch_decision : File → Event → File × Option Event × Bool
  unfolding decide
  apply_watch_decision file e = obey file e (
      decide around.parse_time around.format_time file e.project.key_hash
        (around.as_string e.project.name) around.now)

  abbrev pub watched : File → Option Event → File × Option Event × Bool
  watched file none = (file, none, false)
  watched file (some e) = apply_watch_decision file e

  abbrev pub append_error : Io.Result (Unit {0}) → Option HookError
  append_error (Io.Result.ok u) = none
  append_error (Io.Result.err e) = some (spool_failed e)

  abbrev pub append_line : Option Bytes → Option Bytes → Option Bytes × Option HookError
  unfolding append
  append_line file none = (file, some marshal_failed)
  append_line file (some line) =
      let (after, r) = append around.spool_faults file line in (after, append_error r)

  unfoldable pub spooled : Option Bytes → Option Event → Option Bytes × Option HookError
  unfolding append_line
  spooled file none = (file, none)
  spooled file (some e) = append_line file (around.marshal_event e)

  abbrev pub error_if : Bool → HookError → Option HookError
  error_if failed e = if failed then some e else none

  abbrev pub first_error : List (Option HookError) → Option HookError
  first_error [] = none
  first_error (none ∷ errs) = first_error errs
  first_error (some e ∷ errs) = some e

  -- The call behind the guards, under the session's lock.
  unfoldable pub hook_body : HookInput → Disk → Disk × Option HookError
  unfolding classify parse_result load maybe_start_keep_awake saved deleted apply_watch_decision
      spooled is_end
  hook_body input disk =
      let key = sanitize_session_id input.session_id in
      let (classified, event) =
        classify around.env (parse_result around.env.regexp) input (load key disk.sessions) in
      let (state, keep_awake_fails) = maybe_start_keep_awake input classified in
      let (watch_file, kept, watch_fails) = watched disk.watch_file event in
      let (spool_file, spool_error) = spooled disk.spool_file kept in
      (
        record {
          sessions = deleted input key (saved key state disk.sessions);
          watch_file = watch_file;
          spool_file = spool_file;
        },
        first_error (
            error_if around.config_fails config_failed
            ∷ error_if keep_awake_fails keep_awake_failed
            ∷ error_if around.save_fails save_failed
            ∷ error_if (is_end input && around.delete_fails) delete_failed
            ∷ error_if watch_fails watch_failed
            ∷ spool_error
            ∷ []),
      )

  unfoldable pub classify_and_spool : Option HookInput → Disk → Disk × Option HookError
  unfolding hook_body complete_input
  classify_and_spool none disk = (disk, some parse_failed)
  classify_and_spool (some input) disk =
      if str_eq input.session_id "" || str_eq input.hook_event_name ""
      then (disk, none)
      else hook_body (complete_input input disk.watch_file) disk
