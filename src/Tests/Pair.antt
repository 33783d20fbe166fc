-- ===== src/Tests/Pair.antt =====
-- Runs of internal/pair.
use agentpulse_bridge.Base.{
  ℕ, zero, suc, ◌*◌, ◌≡◌, refl, Bool, true, false, ◌&&◌, none, some, leb, All,
}
use agentpulse_bridge.Base.Text.{codes}
use agentpulse_bridge.Relay.Types.{unauthorized}
use agentpulse_bridge.Pair.Poll.{
  device, rejected, paired, status_error, Turn, PollOptions, run_poll,
}
use agentpulse_bridge.Pair.Machine.{is_kept, sanitize_machine_name, fallback_machine_name}
use agentpulse_bridge.Pair.Machine.Named.{IsMachineName, sanitize_machine_name-IsMachineName}

abbrev second : ℕ
second = 1000000000

-- A 401 while the relay lags, and the phone's name from the second turn on.
abbrev turns : ℕ → Turn
turns zero = record {
  is_over = false;
  answer = status_error unauthorized none;
  request_time = 5;
  judge_time = 0;
  measure_time = 0;
  is_interrupted = false;
  oversleep = 0;
}
turns (suc k) = record {
  is_over = false;
  answer = paired (codes "phone");
  request_time = 5;
  judge_time = 0;
  measure_time = 0;
  is_interrupted = false;
  oversleep = 0;
}

abbrev opts : PollOptions
opts = record { deadline = 600 * second; interval = 0; auth_grace = 0; start = 0 }

poll_runs : run_poll opts 3 turns 1 1 ≡ some (device (codes "phone"))
unfolding run_poll
poll_runs = refl

-- The same 401 long after the start.
late_poll_runs : run_poll (record opts { start = 1 }) 3 turns 1 (100 * second) ≡ some rejected
unfolding run_poll
late_poll_runs = refl

abbrev is_print : ℕ → Bool
is_print c = leb 32 c && leb c 126

sanitize_runs : sanitize_machine_name is_print (codes " my/mac\n") ≡ codes "mymac"
unfolding sanitize_machine_name
sanitize_runs = refl

fallback_kept : All (λ (c : ℕ). is_kept is_print c ≡ true) fallback_machine_name
fallback_kept = (
  refl,
  (
    refl,
    (
      refl,
      (
        refl,
        (refl, (refl, (refl, (refl, (refl, (refl, (refl, (refl, (refl, (refl, (refl, tt))))))))))),
      ),
    ),
  ),
)

sanitize_machine_name-IsMachineName_example :
    IsMachineName is_print (sanitize_machine_name is_print (codes "studio"))
sanitize_machine_name-IsMachineName_example =
    sanitize_machine_name-IsMachineName is_print (codes "studio") fallback_kept
