-- ===== src/Hook/Keeps.antt =====
-- cmd/agentpulse/hook_classify.go: what one call of the hook does to the sessions' scratch files.
use agentpulse_bridge.Base.{
  ◌≡◌, ◌∙◌, inl, inr, false, ◌||◌, ◌&&◌, not, Option, none, some, String, str_eq, Bool-cases, arith,
  ◌==◌,
}
use agentpulse_bridge.Base.Text.{Text, same_text, codes}
use agentpulse_bridge.Classify.Cap.{IsCapped, classify-IsCapped}
use agentpulse_bridge.Classify.Handlers.{classify}
use agentpulse_bridge.Classify.Results.{parse_result}
use agentpulse_bridge.Classify.Input.{HookInput}
use agentpulse_bridge.Classify.State.{SessionState}
use agentpulse_bridge.Hook.Scratch.{
  sanitize_session_id, Sessions, load, or_new, store, IsSessionId, sanitize_session_id-IsSessionId,
}
use agentpulse_bridge.Hook.{
  Surroundings, Disk, KeepAwake, started, not_supported, start_failed, with_pid,
  maybe_start_keep_awake, saved, deleted, is_end, complete_input, hook_body, classify_and_spool,
}

-- No session's file holds more than sixteen subagent chains.
abbrev pub AllCapped : Sessions → Type 0
AllCapped sessions = (key : Text) → IsCapped (load key sessions)

store-AllCapped :
    (key : Text) (s : Option SessionState) (sessions : Sessions)
    → IsCapped (or_new s)
    → AllCapped sessions
    → AllCapped (store key s sessions)
unfolding load store
store-AllCapped key s sessions cap all other = elim (Bool-cases (same_text key other)) [
  | inl same ↦ rw same cap
  | inr apart ↦ rw apart (all other)
]

module _ (around : Surroundings) where
  with_pid-IsCapped :
      (k : KeepAwake) (s : SessionState) → IsCapped s → IsCapped (with_pid around k s).0
  with_pid-IsCapped (started pid) s cap = cap
  with_pid-IsCapped not_supported s cap = cap
  with_pid-IsCapped start_failed s cap = cap

  maybe_start_keep_awake-IsCapped :
      (input : HookInput) (s : SessionState)
      → IsCapped s
      → IsCapped (maybe_start_keep_awake around input s).0
  unfolding maybe_start_keep_awake
  maybe_start_keep_awake-IsCapped input s cap =
      elim (Bool-cases (
        not (str_eq input.hook_event_name "SessionStart")
        || not around.config.keep_awake
        || not (s.keep_awake_pid == 0))) [
          | inl skipped ↦ rw skipped cap
          | inr starts ↦ rw starts (with_pid-IsCapped around.start_keep_awake s cap)
        ]

  saved-AllCapped :
      (key : Text) (s : SessionState) (sessions : Sessions)
      → IsCapped s
      → AllCapped sessions
      → AllCapped (saved around key s sessions)
  unfolding saved
  saved-AllCapped key s sessions cap all = elim (Bool-cases around.save_fails) [
    | inl failed ↦ rw failed all
    | inr done ↦ rw done (store-AllCapped key (some s) sessions cap all)
  ]

  deleted-AllCapped :
      (input : HookInput) (key : Text) (sessions : Sessions)
      → AllCapped sessions
      → AllCapped (deleted around input key sessions)
  unfolding deleted
  deleted-AllCapped input key sessions all =
      elim (Bool-cases (is_end around input && not around.delete_fails)) [
        | inl ended ↦ rw ended (store-AllCapped key none sessions (omega arith) all)
        | inr kept ↦ rw kept all
      ]

  hook_body-AllCapped :
      (input : HookInput) (disk : Disk)
      → AllCapped disk.sessions
      → AllCapped (hook_body around input disk).0.sessions
  unfolding hook_body
  hook_body-AllCapped input disk all =
      let key = sanitize_session_id input.session_id in
      let classified =
        (classify around.env (parse_result around.env.regexp) input (load key disk.sessions)).0 in
      deleted-AllCapped input key
        (saved around key (maybe_start_keep_awake around input classified).0 disk.sessions)
        (saved-AllCapped key (maybe_start_keep_awake around input classified).0 disk.sessions
          (maybe_start_keep_awake-IsCapped input classified (
            classify-IsCapped around.env (parse_result around.env.regexp) input
              (load key disk.sessions) (all key)))
          all)

  -- Whatever a hook brings and whatever fails, no session's file holds more than sixteen subagent
  -- chains after the call, if none did before it.
  pub classify_and_spool-AllCapped :
      (input : Option HookInput) (disk : Disk)
      → AllCapped disk.sessions
      → AllCapped (classify_and_spool around input disk).0.sessions
  unfolding classify_and_spool
  classify_and_spool-AllCapped none disk all = all
  classify_and_spool-AllCapped (some input) disk all =
      elim (Bool-cases (str_eq input.session_id "" || str_eq input.hook_event_name "")) [
        | inl unnamed ↦ rw unnamed all
        | inr named ↦
            rw named (hook_body-AllCapped (complete_input around input disk.watch_file) disk all)
      ]

  store_apart :
      (key other : Text) (s : Option SessionState) (sessions : Sessions)
      → same_text key other ≡ false
      → store key s sessions other ≡ sessions other
  unfolding store
  store_apart key other s sessions apart = rw apart

  saved_apart :
      (key other : Text) (s : SessionState) (sessions : Sessions)
      → same_text key other ≡ false
      → saved around key s sessions other ≡ sessions other
  unfolding saved
  saved_apart key other s sessions apart = elim (Bool-cases around.save_fails) [
    | inl failed ↦ rw failed
    | inr done ↦ rw done (store_apart key other (some s) sessions apart)
  ]

  deleted_apart :
      (input : HookInput) (key other : Text) (sessions : Sessions)
      → same_text key other ≡ false
      → deleted around input key sessions other ≡ sessions other
  unfolding deleted
  deleted_apart input key other sessions apart =
      elim (Bool-cases (is_end around input && not around.delete_fails)) [
        | inl ended ↦ rw ended (store_apart key other none sessions apart)
        | inr kept ↦ rw kept
      ]

  hook_body_apart :
      (input : HookInput) (disk : Disk) (other : Text)
      → same_text (sanitize_session_id input.session_id) other ≡ false
      → (hook_body around input disk).0.sessions other ≡ disk.sessions other
  unfolding hook_body
  hook_body_apart input disk other apart =
      let key = sanitize_session_id input.session_id in
      let state =
        (maybe_start_keep_awake around input
          (classify around.env (parse_result around.env.regexp) input
            (load key disk.sessions)).0).0 in
      deleted_apart input key other (saved around key state disk.sessions) apart
      ∙ saved_apart key other state disk.sessions apart

  -- A hook of one session leaves the file of another, for ids of the schema's form.
  pub classify_and_spool_isolates :
      (input : HookInput) (other : String) (disk : Disk)
      → IsSessionId input.session_id
      → IsSessionId other
      → same_text (codes input.session_id) (codes other) ≡ false
      → (classify_and_spool around (some input) disk).0.sessions (sanitize_session_id other)
        ≡ disk.sessions (sanitize_session_id other)
  unfolding classify_and_spool
  classify_and_spool_isolates input other disk mine theirs apart =
      let names_apart : same_text (sanitize_session_id input.session_id) (sanitize_session_id other)
          ≡ false =
        rw
          (
            sanitize_session_id-IsSessionId input.session_id mine,
            sanitize_session_id-IsSessionId other theirs,
          )
          apart in
      elim (Bool-cases (str_eq input.session_id "" || str_eq input.hook_event_name "")) [
        | inl unnamed ↦ rw unnamed
        | inr named ↦ rw named (
            hook_body_apart (complete_input around input disk.watch_file) disk
              (sanitize_session_id other) (unfold complete_input in names_apart))
      ]
