-- ===== src/Tests/Backlog.antt =====
-- Runs of internal/coalesce and internal/watch.
use agentpulse_bridge.Base.{
  ℕ, zero, suc, ◌+◌, ◌*◌, ◌-◌, ◌/◌, ◌%◌, ◌≡◌, refl, ap, true, false, Option, none, some, String,
  List, [], ◌∷◌, ltb, str_eq, if◌then◌else◌, arith, Bytes, length, eq_iff, Bool-cases, inl, inr,
}
use agentpulse_bridge.Base.Text.{codes, pos}
use agentpulse_bridge.Base.Dict.{lookup}
use agentpulse_bridge.Coalesce.{Header, drop_stale_activity, stale_after, is_stale, chain_of}
use agentpulse_bridge.Coalesce.Chains.{without_superseded, drop_stale_activity-without_superseded}
use agentpulse_bridge.Relay.Types
use agentpulse_bridge.Watch.{File, drop, emit_project_seen, version, decide, project_seen_throttle}
use agentpulse_bridge.Watch.Throttle.{IsClockText, decide_lem, decide_throttles, IsDecided, second}

-- Every line is an activity event of one session at the zero time.
abbrev decode : Bytes → Option Header
decode line = some (record { session_id = "s"; ts = ""; event_type = "activity"; subagent = none })

abbrev late : ℕ
late = stale_after + 1

abbrev backlog : List Bytes
backlog = codes "1" ∷ codes "2" ∷ []

drop_stale_activity_runs : drop_stale_activity decode (λ _. some 0) backlog late ≡ codes "2" ∷ []
unfolding drop_stale_activity is_stale chain_of
drop_stale_activity_runs = refl

drop_stale_activity-without_superseded_example :
    drop_stale_activity decode (λ _. some 0) backlog late
    ≡ without_superseded decode (λ _. some 0) late backlog
drop_stale_activity-without_superseded_example =
    drop_stale_activity-without_superseded decode (λ _. some 0) backlog late

abbrev file : File
file = record {
  watch_list = some (record {
    version = pos 1;
    watch_new_projects = false;
    projects =
        ("a", record { watched = true; display_name = "alpha"; last_project_seen_at = "" }) ∷ [];
  });
  settings = none;
}

abbrev relay_list : Types.WatchList
relay_list = record {
  version = pos 2;
  watch_new_projects = false;
  projects = ("a", false) ∷ ("b", true) ∷ [];
}

-- A clock's text that writes the seconds in unary.
unary : ℕ → String
unary zero = "x"
unary (suc n) = String.◌∷◌ "x" (unary n)

count : String → ℕ
count String.[] = zero
count (String.◌∷◌ c s) = suc (count s)

abbrev format : ℕ → String
format t = unary (t / second)

abbrev parse : String → Option ℕ
parse s = some ((count s - 1) * second)

count-unary : (n : ℕ) → count (unary n) ≡ suc n
unfolding count unary
count-unary zero = refl
count-unary (suc n) = ap suc (count-unary n)

length-codes : (n : ℕ) → length (codes (unary n)) ≡ suc n
unfolding unary
length-codes zero = refl
length-codes (suc n) = ap suc (length-codes n)

unary-nonempty : (n : ℕ) → str_eq (unary n) "" ≡ false
unary-nonempty n = elim (Bool-cases (str_eq (unary n) "")) [
  | inl e ↦
      let same : length (codes (unary n)) ≡ 0 =
        ap (λ (t : String). length (codes t)) ((eq_iff (unary n) "").0 e) in
      absurd (omega (arith, length-codes n))
  | inr e ↦ e
]

unary-IsClockText : IsClockText parse format
unary-IsClockText = record {
  nonempty = λ t. unary-nonempty (t / second);
  reads_back = λ t. rw (count-unary (t / second)) (ap some (omega arith));
}

decide_lem_example :
    let (f', d) = decide parse format file "c" "gamma" 5 in
    IsDecided parse format file "c" "gamma" 5 f' d
decide_lem_example = decide_lem parse format file "c" "gamma" 5

decide_throttles_example :
    (decide parse format (decide parse format file "c" "gamma" 5).0 "c" "delta" 9).1
    ≡ (if ltb 9 (5 - 5 % second + project_seen_throttle) then drop else emit_project_seen)
unfolding decide lookup
decide_throttles_example =
    decide_throttles parse format file "c" "gamma" "delta" 5 9 unary-IsClockText refl
