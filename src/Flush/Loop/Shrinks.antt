-- ===== src/Flush/Loop/Shrinks.antt =====
-- cmd/agentpulse/flush.go and flush_subagent.go: a response that drops something leaves less to send.
use agentpulse_bridge.Base.{
  ℕ, zero, suc, ◌+◌, ◌≤◌, ◌<◌, ◌≡◌, ◌≢◌, refl, sym, ◌∙◌, ◌⊎◌, inl, inr, Bool, true, false, ◌&&◌,
  some, String, List, [], ◌∷◌, arith, leb, ==_iff, leb→le, lt→ltb, length, get_elem?, drop,
  length-drop, All, All-append, All-drop, Bool-cases, Option-cases, Bytes,
}
use mathlib.Core.Bool.{false≢true}
use agentpulse_bridge.Base.Text.{codes}
use agentpulse_bridge.Base.Dict.{Dict, remove}
use agentpulse_bridge.Relay.Types.{Response, DroppedEvent}
use agentpulse_bridge.Relay.Client.Delivery.{IsPlaced}
use agentpulse_bridge.Flush.Subagents.{
  FieldCodec, has_subagent, is_text, split_subagent_rejections, is_rejected_subagent, is_bound,
  strip_line, strip_subagents,
}
use agentpulse_bridge.Flush.Loop.{Formats, drops, keep_undropped, remove_resolved, lines_after}
use agentpulse_bridge.Flush.Loop.Weight.{
  weight, weight-append, weight-drop, length-weight, weight-marked, weight-keep_undropped,
  length-keep_undropped, weight-keep_undropped_lt,
}

-- If the line holds the bytes `"subagent"`, then in an object's field alone: it decodes, and encoded
-- without that field it does not hold them any more. An event of a project named `subagent` is none.
abbrev pub IsEvent : FieldCodec → Bytes → Type 0
IsEvent fields l =
    has_subagent l ≡ true
    → (ev : Dict Bytes) × (fields.members l ≡ some ev)
      × ((l' : Bytes) → fields.marshal (remove "subagent" ev) ≡ some l' → has_subagent l' ≡ false)

module _ (fields : FieldCodec) where
  abbrev Light : List Bytes → Type 0
  Light ls = (weight ls ≤ 1) × All (IsEvent fields) ls

  unmarked-Light : (l : Bytes) → has_subagent l ≡ false → Light (l ∷ [])
  unfolding weight
  unmarked-Light l plain = (rw plain (omega arith), (λ h. absurd (false≢true (sym plain ∙ h)), tt))

  strip_line-Light : (l : Bytes) → IsEvent fields l → Light (strip_line fields l)
  strip_line-Light l event = elim (Bool-cases (has_subagent l)) [
    | inr plain ↦ rw plain (unmarked-Light l plain)
    | inl marked ↦
        let (ev, decoded, clean) = event marked in
        elim (Bool-cases (is_bound fields ev)) [
          | inl bound ↦ rw (marked, decoded, bound) (unfold weight in omega arith, tt)
          | inr kept ↦ elim (Option-cases (fields.marshal (remove "subagent" ev))) [
            | inl failed ↦ rw (marked, decoded, kept, failed) (unfold weight in omega arith, tt)
            | inr (l', encoded) ↦
                rw (marked, decoded, kept, encoded) (unmarked-Light l' (clean l' encoded))
          ]
        ]
  ]

  pub weight-strip_subagents :
      (ls : List Bytes)
      → All (IsEvent fields) ls
      → (weight (strip_subagents fields ls) ≤ length ls)
        × All (IsEvent fields) (strip_subagents fields ls)
  unfolding strip_subagents
  weight-strip_subagents [] events = (unfold weight in omega arith, tt)
  weight-strip_subagents (l ∷ ls) events =
      let (w, e) = strip_line-Light l events.0 in
      let (ws, es) = weight-strip_subagents ls events.1 in
      (
        omega (arith, w, ws, weight-append (strip_line fields l) (strip_subagents fields ls)),
        All-append (IsEvent fields) (strip_line fields l) (strip_subagents fields ls) e es,
      )

module _ (P : Bytes → Type 0) where
  All-keep_undropped :
      (i : ℕ) (dropped : List DroppedEvent) (ls : List Bytes)
      → All P ls
      → All P (keep_undropped i dropped ls)
  unfolding keep_undropped
  All-keep_undropped i dropped [] h = tt
  All-keep_undropped i dropped (l ∷ ls) h =
      let rest = All-keep_undropped (i + 1) dropped ls h.1 in
      elim (Bool-cases (drops dropped i)) [
        | inl gone ↦ rw gone rest
        | inr kept ↦ rw kept (h.0, rest)
      ]

  pub All-remove_resolved :
      (cur : List Bytes) (sent : ℕ) (dropped : List DroppedEvent)
      → All P cur
      → All P (remove_resolved cur sent dropped)
  unfolding remove_resolved
  All-remove_resolved cur sent dropped h = elim (Bool-cases (leb (length cur) sent)) [
    | inl all ↦ rw all tt
    | inr some_left ↦
        rw some_left (All-keep_undropped sent dropped (drop sent cur) (All-drop P sent cur h))
  ]

and_false : (b : Bool) → (b && false) ≡ false
and_false true = refl
and_false false = refl

-- Nothing is set aside, or something is and a line holds the field.
pub split_lem :
    (cur : List Bytes) (dropped : List DroppedEvent)
    → (split_subagent_rejections cur dropped ≡ (dropped, 0))
      ⊎ (0 < (split_subagent_rejections cur dropped).1) × (length cur < weight cur)
unfolding split_subagent_rejections
split_lem cur [] = inl refl
split_lem cur (d ∷ dropped) = elim (Bool-cases (is_rejected_subagent cur d)) [
  | inl set_aside ↦ elim (Option-cases (get_elem? cur d.index)) [
    | inl outside ↦ absurd (
        false≢true (
          sym (and_false (is_text d.unexpected_field (codes "subagent")))
          ∙ rw outside at set_aside))
    | inr (l, at) ↦
        let h = rw at at set_aside in
        inr (rw set_aside (omega arith), weight-marked cur d.index l at (ground (arith, h)))
  ]
  | inr other ↦ elim (split_lem cur dropped) [
    | inl same ↦ inl (rw (other, same) refl)
    | inr (count, marked) ↦ inr (rw other count, marked)
  ]
]

drops_head : (d : DroppedEvent) (ds : List DroppedEvent) → drops (d ∷ ds) d.index ≡ true
drops_head d ds = ground (arith, ==_iff d.index d.index)

pub length-remove_resolved :
    (cur : List Bytes) (sent : ℕ) (dropped : List DroppedEvent)
    → length (remove_resolved cur sent dropped) ≤ length cur
unfolding remove_resolved
length-remove_resolved cur sent dropped =
    ground (arith, length-keep_undropped sent dropped (drop sent cur), length-drop sent cur)

pub weight-remove_resolved :
    (cur : List Bytes) (sent : ℕ) (dropped : List DroppedEvent)
    → sent ≤ length cur
    → weight (remove_resolved cur sent dropped) + sent ≤ weight cur
unfolding remove_resolved
weight-remove_resolved cur sent dropped h = elim (Bool-cases (leb (length cur) sent)) [
  | inl all ↦ rw all (unfold weight in omega (arith, length-weight cur))
  | inr some_left ↦
      rw some_left
        (omega (arith, weight-drop sent cur h, weight-keep_undropped sent dropped (drop sent cur)))
]

-- A dropped event that was still to be sent is taken out.
pub weight-remove_resolved_lt :
    (cur : List Bytes) (d : DroppedEvent) (ds : List DroppedEvent)
    → d.index < length cur
    → weight (remove_resolved cur 0 (d ∷ ds)) < weight cur
unfolding remove_resolved
weight-remove_resolved_lt cur d ds h = elim (Bool-cases (leb (length cur) 0)) [
  | inl nothing ↦ absurd (omega (arith, leb→le (length cur) 0 nothing))
  | inr some_left ↦ rw some_left (
      weight-keep_undropped_lt 0 d.index (d ∷ ds) cur (drops_head d ds) (omega arith) (omega arith))
]

-- So any dropped event makes what is left lighter, if there was one to be dropped or one was sent.
weight-remove_dropped :
    (cur : List Bytes) (sent : ℕ) (dropped : List DroppedEvent)
    → sent ≤ length cur
    → All (IsPlaced (length cur)) dropped
    → dropped ≢ []
    → weight (remove_resolved cur sent dropped) < weight cur
weight-remove_dropped cur sent [] h placed some_dropped = absurd (some_dropped refl)
weight-remove_dropped cur zero (d ∷ ds) h placed some_dropped =
    weight-remove_resolved_lt cur d ds placed.0
weight-remove_dropped cur (suc n) (d ∷ ds) h placed some_dropped =
    omega (arith, weight-remove_resolved cur (suc n) (d ∷ ds) h)

module _ (formats : Formats) (paired_at : String) where
  abbrev Events : List Bytes → Type 0
  Events ls = All (IsEvent formats.fields) ls

  -- Whatever the response, no more is left to send than before; if it dropped an event, less is.
  pub weight-lines_after :
      (cur : List Bytes) (r : Response)
      → 0 < length cur
      → r.sent ≤ length cur
      → All (IsPlaced (length cur)) r.dropped
      → Events cur
      → (weight (lines_after formats paired_at cur r) ≤ weight cur)
        × (r.dropped ≢ [] → weight (lines_after formats paired_at cur r) < weight cur)
        × Events (lines_after formats paired_at cur r)
  weight-lines_after cur r some_left sent placed events =
      let dropped = (split_subagent_rejections cur r.dropped).0 in
      let kept = remove_resolved cur r.sent dropped in
      let kept_events = All-remove_resolved (IsEvent formats.fields) cur r.sent dropped events in
      let (light, still) = weight-strip_subagents formats.fields kept kept_events in
      elim (split_lem cur r.dropped) [
        | inl same ↦ rw same (
          omega (arith, weight-remove_resolved cur r.sent r.dropped sent),
          weight-remove_dropped cur r.sent r.dropped sent placed,
          All-remove_resolved (IsEvent formats.fields) cur r.sent r.dropped events,
        )
        | inr (count, marked) ↦ rw (lt→ltb 0 _ count) (
          omega (arith, light, length-remove_resolved cur r.sent dropped),
          λ _. omega (arith, light, length-remove_resolved cur r.sent dropped),
          still,
        )
      ]
