-- ===== src/Flush/Loop/Repeats.antt =====
-- cmd/agentpulse/flush.go and flush_subagent.go: a line that stripping does not change, rejected for
-- its `subagent` field.
use agentpulse_bridge.Base.{
  ℕ, zero, suc, ◌+◌, ◌≡◌, refl, ap, ◌∙◌, true, false, Option, none, some, String, List, [], ◌∷◌,
  Bytes,
}
use agentpulse_bridge.Base.Text.{codes}
use agentpulse_bridge.Relay.Types.{Response, DroppedEvent, status, StatusError, bad_request}
use agentpulse_bridge.Relay.Client.{post_events}
use agentpulse_bridge.Flush.Types.{Progress, Turn}
use agentpulse_bridge.Flush.Subagents.{
  has_subagent, split_subagent_rejections, strip_line, strip_subagents,
}
use agentpulse_bridge.Flush.Loop.{
  Formats, Judged, judge, absorb, finish, take_turn, remove_resolved, keep_undropped, lines_after,
  flush_loop,
}

module _ (formats : Formats) (paired_at : String) (line : Bytes) where
  -- A turn within the budget, in which the relay answers a 400 to the line, as to an event with a
  -- field `subagent` that it does not know.
  pub record Rejects (t : Turn) : Type 0 where
    pub r : Response
    pub se : StatusError
    pub d : DroppedEvent
    pub goes_on : t.is_over ≡ false
    pub answers :
        post_events formats.codec t.expired t.send (line ∷ []) ≡ some (r, some (status se))
    pub kind : se.kind ≡ bad_request
    pub sent : r.sent ≡ 0
    pub dropped : r.dropped ≡ d ∷ []
    pub index : d.index ≡ 0
    pub field : d.unexpected_field ≡ codes "subagent"

  finish-none :
      (next : Progress → Option Progress) (j : Judged)
      → j.1 ≡ true
      → next j.0 ≡ none
      → finish formats paired_at next j ≡ none
  finish-none next (q, b) again h = rw again h

  module _ (marked : has_subagent line ≡ true)
      (unchanged : strip_line formats.fields line ≡ line ∷ []) where
    lines_after-unchanged :
        (t : Turn) (a : Rejects t) → lines_after formats paired_at (line ∷ []) a.r ≡ line ∷ []
    unfolding split_subagent_rejections remove_resolved strip_subagents keep_undropped
    lines_after-unchanged t a = rw (a.dropped, a.field, a.index, marked, a.sent, unchanged) refl

    turn-repeats :
        (next : Progress → Option Progress) (t : Turn) (p : Progress)
        → Rejects t
        → p.cur ≡ line ∷ []
        → ((q : Progress) → q.cur ≡ line ∷ [] → next q ≡ none)
        → take_turn formats paired_at next t p (line ∷ []) ≡ none
    unfolding judge absorb
    turn-repeats next t p a here again =
        let j =
          judge formats paired_at t a.r (some (status a.se)) (absorb formats paired_at t a.r p) in
        let more : j.1 ≡ true = rw (a.kind, a.dropped) refl in
        let same : j.0.cur ≡ line ∷ [] = rw (a.kind) (
          ap (λ (ls : List Bytes). lines_after formats paired_at ls a.r) here
          ∙ lines_after-unchanged t a) in
        simp (a.goes_on, a.answers) (finish-none next j more (again j.0 same))

    -- A line that holds the bytes `"subagent"` and that stripping leaves as it is, such as an event of
    -- a project of that name, to which the relay answers a 400 for a field `subagent` in every turn:
    -- the loop of `runFlush` sends it again in each turn, without a wait, and does not end by itself
    -- with any number of turns.
    pub flush_loop-repeats :
        (turns : ℕ → Turn)
        → ((k : ℕ) → Rejects (turns k))
        → (fuel k : ℕ) (p : Progress) → p.cur ≡ line ∷ []
        → flush_loop formats paired_at fuel turns k p ≡ none
    unfolding flush_loop
    flush_loop-repeats turns rejects zero k p here = refl
    flush_loop-repeats turns rejects (suc fuel) k p here =
        let next = λ (q : Progress). flush_loop formats paired_at fuel turns (k + 1) q in
        ap (λ (ls : List Bytes). take_turn formats paired_at next (turns k) p ls) here
        ∙ turn-repeats next (turns k) p (rejects k) here
            (λ q same. flush_loop-repeats turns rejects fuel (k + 1) q same)
