-- ===== src/Hook/Spooling.antt =====
-- cmd/agentpulse/hook_classify.go: what one call of the hook adds to the spool.
use agentpulse_bridge.Base.{
  ◌≡◌, refl, inl, inr, ◌⊎◌, true, ◌||◌, Option, none, some, str_eq, Bool-cases, Bytes,
}
use agentpulse_bridge.Spool.Queue.{append}
use agentpulse_bridge.Watch.{File, Decision, spool, drop, emit_project_seen, decide}
use agentpulse_bridge.Watch.Throttle.{watched_now, decide_spools}
use agentpulse_bridge.Classify.Event.{Event, Subagent, project_seen, empty_payload}
use agentpulse_bridge.Classify.Handlers.{classify}
use agentpulse_bridge.Classify.Results.{parse_result}
use agentpulse_bridge.Classify.Input.{HookInput}
use agentpulse_bridge.Hook.Scratch.{sanitize_session_id, load}
use agentpulse_bridge.Hook.{
  Surroundings, Disk, apply_watch_decision, obey, seen_or_nothing, watched, spooled, append_line,
  complete_input, hook_body, classify_and_spool,
}

module _ (around : Surroundings) where
  -- The event's project is watched, or the event is a bare project_seen.
  abbrev pub MaySpool : File → Event → Type 0
  MaySpool file e =
      (watched_now around.parse_time around.format_time file e.project.key_hash ≡ true)
      ⊎ ((e.event_type ≡ project_seen) × (e.payload ≡ empty_payload) × (e.subagent ≡ none))

  -- What stands in the spool is as before, or one line was handed to Append, of an event that may go.
  abbrev pub Spools : File → Option Bytes → Option Bytes → Type 0
  Spools file before after =
      (after ≡ before)
      ⊎ ((e : Event) × (line : Bytes) × (around.marshal_event e ≡ some line)
          × (after ≡ (append around.spool_faults before line).0)
          × MaySpool file e)

  abbrev MayKeep : File → Option Event → Type 0
  MayKeep file none = Unit
  MayKeep file (some e) = MaySpool file e

  seen_or_nothing-MayKeep :
      (old new : File) (e : Event) (sub : Option Subagent)
      → e.subagent ≡ sub
      → MayKeep old (seen_or_nothing around old new e sub).1
  seen_or_nothing-MayKeep old new e (some sub) h = tt
  seen_or_nothing-MayKeep old new e none h = inr (refl, refl, h)

  obey-MayKeep :
      (old : File) (e : Event) (new : File) (d : Decision)
      → (d ≡ spool → watched_now around.parse_time around.format_time old e.project.key_hash ≡ true)
      → MayKeep old (obey around old e (new, d)).1
  obey-MayKeep old e new drop h = tt
  obey-MayKeep old e new spool h = inl (h refl)
  obey-MayKeep old e new emit_project_seen h = seen_or_nothing-MayKeep old new e e.subagent refl

  watched-MayKeep : (file : File) (e : Option Event) → MayKeep file (watched around file e).1
  unfolding apply_watch_decision
  watched-MayKeep file none = tt
  watched-MayKeep file (some e) =
      let name = around.as_string e.project.name in
      let decided =
        decide around.parse_time around.format_time file e.project.key_hash name around.now in
      obey-MayKeep file e decided.0 decided.1
        (decide_spools around.parse_time around.format_time file e.project.key_hash name around.now)

  append_line-Spools :
      (file : File) (before : Option Bytes) (e : Event) (line : Option Bytes)
      → MaySpool file e
      → around.marshal_event e ≡ line
      → Spools file before (append_line around before line).0
  unfolding append_line
  append_line-Spools file before e none may h = inl refl
  append_line-Spools file before e (some line) may h = inr (e, line, h, refl, may)

  spooled-Spools :
      (file : File) (before : Option Bytes) (e : Option Event)
      → MayKeep file e
      → Spools file before (spooled around before e).0
  unfolding spooled
  spooled-Spools file before none may = inl refl
  spooled-Spools file before (some e) may =
      append_line-Spools file before e (around.marshal_event e) may refl

  hook_body-Spools :
      (input : HookInput) (disk : Disk)
      → Spools disk.watch_file disk.spool_file (hook_body around input disk).0.spool_file
  unfolding hook_body
  hook_body-Spools input disk =
      let event =
        (classify around.env (parse_result around.env.regexp) input
          (load (sanitize_session_id input.session_id) disk.sessions)).1 in
      spooled-Spools disk.watch_file disk.spool_file (watched around disk.watch_file event).1
        (watched-MayKeep disk.watch_file event)

  -- Whatever a hook brings and whatever fails, the spool is as before, or one line was handed to
  -- Append: the line of an event whose project the stored list has as watched, or of a project_seen
  -- with no payload and no subagent.
  pub classify_and_spool-Spools :
      (input : Option HookInput) (disk : Disk)
      → Spools disk.watch_file disk.spool_file (classify_and_spool around input disk).0.spool_file
  unfolding classify_and_spool
  classify_and_spool-Spools none disk = inl refl
  classify_and_spool-Spools (some input) disk =
      elim (Bool-cases (str_eq input.session_id "" || str_eq input.hook_event_name "")) [
        | inl unnamed ↦ rw unnamed (inl refl)
        | inr named ↦ rw named (hook_body-Spools (complete_input around input disk.watch_file) disk)
      ]
