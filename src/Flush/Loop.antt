-- ===== src/Flush/Loop.antt =====
-- cmd/agentpulse/flush.go: `runFlush` from the drained batch on. The loop takes a turn of the
-- surroundings for every PostEvents; logging is left out.
pub mod Weight
pub mod Shrinks
pub mod Returns
pub mod Strikes
pub mod Repeats
use agentpulse_bridge.Base.{
  ℕ, zero, suc, ◌+◌, Bool, true, false, not, ◌||◌, Option, none, some, String, List, [], ◌∷◌, ltb,
  leb, ◌==◌, if◌then◌else◌, length, get_elem?, take, drop, any, last?, Bytes,
}
use agentpulse_bridge.Base.Text.{Text}
use agentpulse_bridge.Relay.Types.{
  Response, DroppedEvent, PostError, status, encoding, StatusError, Kind,
}
use agentpulse_bridge.Relay.Client.{Codec, post_events}
use agentpulse_bridge.Watch.{File, apply_relay_list}
use agentpulse_bridge.Coalesce.{Header, drop_stale_activity}
use agentpulse_bridge.Flush.Types.{
  Outcome, outcome_ok, unauthorized, rate_limited, schema_error, server_error, network_error,
  budget_cut_off, LastEvent, LastFlush, State, Progress, Turn,
}
use agentpulse_bridge.Flush.Subagents.{
  FieldCodec, split_subagent_rejections, strip_subagents, subagent_fallback_period,
}
use agentpulse_bridge.Flush.Waits.{
  backoff_schedule, max_rate_limit_retries, rate_limit_wait, is_rate_limited, within_pairing_grace,
  subagents_paused,
}

abbrev pub unpaired_by_phone : String
unpaired_by_phone = "Unpaired by phone or revoked. Run `agentpulse pair`."

abbrev pub drops : List DroppedEvent → ℕ → Bool
drops dropped i = any (λ d. d.index == i) dropped

-- The loop of `removeResolved`, from index `i` on.
unfoldable pub keep_undropped : ℕ → List DroppedEvent → List Bytes → List Bytes
keep_undropped i dropped [] = []
keep_undropped i dropped (l ∷ ls) =
    let rest = keep_undropped (i + 1) dropped ls in if drops dropped i then rest else l ∷ rest

unfoldable pub remove_resolved : List Bytes → ℕ → List DroppedEvent → List Bytes
unfolding keep_undropped
remove_resolved cur sent dropped =
    if leb (length cur) sent then [] else keep_undropped sent dropped (drop sent cur)

-- What is used of encoding/json and of the text form of times.
pub record Formats : Type 0 where
  pub codec : Codec
  pub fields : FieldCodec
  pub last_event_of : Bytes → Option LastEvent
  pub header_of : Bytes → Option Header
  pub parse_nano : String → Option ℕ
  pub parse : String → Option ℕ
  pub format : ℕ → String

-- The progress, and whether there is another turn.
abbrev pub Judged : Type 0
Judged = Progress × Bool

module _ (formats : Formats) (paired_at : String) where
  abbrev or_last : Option LastEvent → Option LastEvent → Option LastEvent
  or_last none old = old
  or_last (some e) old = some e

  abbrev last_event_from_batch : Option Bytes → Option LastEvent
  last_event_from_batch none = none
  last_event_from_batch (some line) = formats.last_event_of line

  abbrev note_delivery : List Bytes → ℕ → State → State
  note_delivery cur sent s =
      if ltb 0 sent
      then record s {
        consecutive_401 = 0;
        last_event = or_last (last_event_from_batch (last? (take sent cur))) s.last_event;
      }
      else s

  abbrev or_settings : Response → File → File
  or_settings r f = elim r.settings [ none ↦ f | some s ↦ record f { settings = some s } ]

  abbrev pub lines_after : List Bytes → Response → List Bytes
  lines_after cur r =
      let (dropped, rejected) = split_subagent_rejections cur r.dropped in
      let kept = remove_resolved cur r.sent dropped in
      if ltb 0 rejected then strip_subagents formats.fields kept else kept

  abbrev pause_subagents : Turn → List Bytes → Response → State → State
  pause_subagents t cur r s =
      if ltb 0 (split_subagent_rejections cur r.dropped).1
      then record s {
        subagents_off_until = formats.format (t.rejected_at + subagent_fallback_period);
      }
      else s

  -- What the loop takes from a response, whether or not an error came with it.
  unfoldable pub absorb : Turn → Response → Progress → Progress
  unfolding apply_relay_list split_subagent_rejections remove_resolved strip_subagents
  absorb t r p = record p {
    cur = lines_after p.cur r;
    file = or_settings r (apply_relay_list r.watch_list p.file).0;
    state = pause_subagents t p.cur r (note_delivery p.cur r.sent p.state);
  }

  abbrev sleep_step : Turn → Progress → Option ℕ → Judged
  sleep_step t p none = (p, false)
  sleep_step t p (some d) = (record p { retry_attempt = p.retry_attempt + 1 }, t.sleeps d)

  abbrev pub wait_for_retry : Turn → Progress → Judged
  wait_for_retry t p = sleep_step t p (get_elem? backoff_schedule p.retry_attempt)

  abbrev require : Text → State → State
  require [] s = s
  require (c ∷ v) s = record s { required_bridge_version = c ∷ v }

  abbrev is_empty : List DroppedEvent → Bool
  is_empty [] = true
  is_empty (d ∷ ds) = false

  abbrev pub or_cut_off : Judged → Judged
  or_cut_off (p, again) =
      if again then (p, true) else (record p { outcome = budget_cut_off }, false)

  abbrev pub strike : Turn → Progress → Progress
  strike t p =
      let n = p.state.consecutive_401 + 1 in
      if leb 3 n
      then record p {
        state = record p.state { consecutive_401 = n; unpaired_reason = unpaired_by_phone };
        is_cleared = t.deletes;
      }
      else record p { state = record p.state { consecutive_401 = n } }

  abbrev refuse_access : Turn → Progress → Judged
  refuse_access t p =
      if within_pairing_grace formats.parse paired_at t.answered_at
      then or_cut_off (wait_for_retry t p)
      else (strike t p, false)

  abbrev is_valid : Option ℕ → Bool
  is_valid none = false
  is_valid (some d) = true

  abbrev with_limit : String → Progress → Progress
  with_limit until p = record p { state = record p.state { rate_limited_until = until } }

  abbrev pub obey_limit : Turn → StatusError → Progress → Judged
  obey_limit t se p =
      let wait = rate_limit_wait se in
      let limited = record (with_limit (formats.format (t.answered_at + wait)) p) {
        rate_limit_retries = p.rate_limit_retries + 1;
      } in
      if ltb max_rate_limit_retries (p.rate_limit_retries + 1) || not (is_valid se.retry_after)
      then (limited, false)
      else if t.sleeps wait
      then (with_limit "" limited, true)
      else (limited, false)

  -- The `switch` on the error's kind.
  abbrev pub answer : Kind → Turn → Response → StatusError → Progress → Judged
  answer Kind.bad_request t r se p = (
    record p { outcome = schema_error; state = require se.required_bridge_version p.state },
    not (is_empty r.dropped),
  )
  answer Kind.unauthorized t r se p = refuse_access t (record p { outcome = unauthorized })
  answer Kind.rate_limited t r se p = obey_limit t se (record p { outcome = rate_limited })
  answer Kind.server_error t r se p = wait_for_retry t (record p { outcome = server_error })
  answer Kind.network t r se p = wait_for_retry t (record p { outcome = network_error })
  answer Kind.timeout t r se p = wait_for_retry t (record p { outcome = network_error })
  answer Kind.unknown t r se p = (p, false)

  unfoldable pub judge : Turn → Response → Option PostError → Progress → Judged
  unfolding rate_limit_wait within_pairing_grace
  judge t r none p = (record p { outcome = outcome_ok }, false)
  judge t r (some encoding) p = (record p { outcome = network_error }, false)
  judge t r (some (status se)) p = answer se.kind t r se (record p { http_status = se.status_code })

  abbrev pub finish : (Progress → Option Progress) → Judged → Option Progress
  finish next (p, again) = if again then next p else some p

  abbrev pub settle :
      (Progress → Option Progress)
      → Turn
      → Progress
      → Option (Response × Option PostError)
      → Option Progress
  settle next t p none = none
  settle next t p (some (r, e)) = finish next (judge t r e (absorb t r p))

  abbrev pub take_turn :
      (Progress → Option Progress) → Turn → Progress → List Bytes → Option Progress
  take_turn next t p [] = some p
  take_turn next t p (l ∷ ls) =
      if t.is_over
      then some (record p { outcome = budget_cut_off })
      else settle next t p (post_events formats.codec t.expired t.send (l ∷ ls))

  -- One turn per unit of fuel; `none` means that the fuel ran out.
  unfoldable pub flush_loop : ℕ → (ℕ → Turn) → ℕ → Progress → Option Progress
  unfolding judge absorb post_events
  flush_loop zero turns k p = none
  flush_loop (suc fuel) turns k p =
      let next = λ (q : Progress). flush_loop fuel turns (k + 1) q in
      take_turn next (turns k) p p.cur
