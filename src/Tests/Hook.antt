-- ===== src/Tests/Hook.antt =====
-- Runs of cmd/agentpulse/hook_classify.go.
use agentpulse_bridge.Base.{◌≡◌, refl, true, false, none, some, [], arith}
use agentpulse_bridge.Base.Text.{codes}
use agentpulse_bridge.Spool.Io.{no_faults}
use agentpulse_bridge.Flush.Types.{State}
use agentpulse_bridge.Hook.Scratch.{sanitize_session_id, IsSessionId, load}
use agentpulse_bridge.Hook.{Surroundings, Disk, not_supported, classify_and_spool}
use agentpulse_bridge.Hook.Spooling.{Spools, classify_and_spool-Spools}
use agentpulse_bridge.Hook.Keeps.{
  AllCapped, classify_and_spool-AllCapped, classify_and_spool_isolates,
}
use agentpulse_bridge.Tests.Classify.{env, before}

abbrev state : State
state = record {
  consecutive_401 = 0;
  unpaired_reason = "";
  required_bridge_version = [];
  last_event = none;
  last_flush = none;
  subagents_off_until = "";
  rate_limited_until = "";
}

abbrev around : Surroundings
around = record {
  env = env;
  parse_time = λ t. some 0;
  format_time = λ t. "then";
  as_string = λ t. "name";
  marshal_event = λ e. some (codes "{}");
  now = 1000;
  version = "1.0.0";
  config = record { bridge_id = "brg"; keep_awake = true };
  config_fails = false;
  flush_state = state;
  start_keep_awake = not_supported;
  save_fails = false;
  delete_fails = false;
  watch_save_fails = false;
  spool_faults = no_faults;
}

abbrev disk : Disk
disk = record {
  sessions = λ key. none;
  watch_file = record { watch_list = none; settings = none };
  spool_file = none;
}

disk-AllCapped : AllCapped disk.sessions
unfolding load
disk-AllCapped key = omega arith

classify_and_spool-Spools_example :
    Spools around disk.watch_file disk.spool_file
      (classify_and_spool around (some before) disk).0.spool_file
classify_and_spool-Spools_example = classify_and_spool-Spools around (some before) disk

classify_and_spool-AllCapped_example :
    AllCapped (classify_and_spool around (some before) disk).0.sessions
classify_and_spool-AllCapped_example =
    classify_and_spool-AllCapped around (some before) disk disk-AllCapped

s-IsSessionId : IsSessionId "s"
s-IsSessionId = (refl, omega arith, omega arith)

t-IsSessionId : IsSessionId "t"
t-IsSessionId = (refl, omega arith, omega arith)

classify_and_spool_isolates_example :
    (classify_and_spool around (some before) disk).0.sessions (sanitize_session_id "t")
    ≡ disk.sessions (sanitize_session_id "t")
classify_and_spool_isolates_example =
    classify_and_spool_isolates around before "t" disk s-IsSessionId t-IsSessionId refl

unsafe_id : sanitize_session_id "../x y" ≡ codes "___x_y"
unfolding sanitize_session_id
unsafe_id = refl
