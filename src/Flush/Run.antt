-- ===== src/Flush/Run.antt =====
-- cmd/agentpulse/flush.go: `runFlush` once the spool is drained and the bridge is paired.
use agentpulse_bridge.Base.{
  ℕ, ◌+◌, ◌≤◌, ◌<◌, ◌≡◌, ◌⊎◌, refl, subst, inl, inr, Bool, true, false, Option, none, some, String,
  List, [], ◌∷◌, arith, if◌then◌else◌, Bool-cases, Bytes,
}
use agentpulse_bridge.Watch.{File}
use agentpulse_bridge.Coalesce.{drop_stale_activity}
use agentpulse_bridge.Flush.Types.{Outcome, outcome_ok, rate_limited, State, Progress, Turn}
use agentpulse_bridge.Flush.Subagents.{strip_subagents}
use agentpulse_bridge.Flush.Waits.{is_rate_limited, subagents_paused}
use agentpulse_bridge.Flush.Loop.{Formats, flush_loop, unpaired_by_phone}
use agentpulse_bridge.Flush.Loop.Returns.{flush_loop-cut_off}
use agentpulse_bridge.Flush.Loop.Strikes.{Ends, flush_loop-Ends}

-- What a run leaves behind: the lines that its commit keeps in the spool, the watch list and the
-- state that it saves, and whether it deleted the credential.
pub record Left : Type 0 where
  pub kept : List Bytes
  pub file : File
  pub state : State
  pub is_cleared : Bool

-- The readings of the clock outside of the loop.
pub record Clock : Type 0 where
  pub paused_at : ℕ
  pub coalesced_at : ℕ
  pub limited_at : ℕ
  pub ended_at : ℕ

module _ (formats : Formats) (paired_at : String) (turns : ℕ → Turn) (clock : Clock) where
  abbrev with_last_flush : Outcome → ℕ → State → State
  with_last_flush outcome http_status s = record s {
    last_flush = some (record {
      ts = formats.format clock.ended_at;
      outcome = outcome;
      http_status = http_status;
    });
  }

  -- The batch without the field while marking is paused, and without what is out of date.
  unfoldable pub prepare : State → List Bytes → List Bytes
  unfolding strip_subagents drop_stale_activity subagents_paused
  prepare s batch =
      drop_stale_activity formats.header_of formats.parse_nano
        (if subagents_paused formats.parse s clock.paused_at
          then strip_subagents formats.fields batch
          else batch)
        clock.coalesced_at

  abbrev pub start : State → File → List Bytes → Progress
  start s f lines = record {
    cur = lines;
    file = f;
    state = record s { rate_limited_until = "" };
    is_cleared = false;
    retry_attempt = 0;
    rate_limit_retries = 0;
    outcome = outcome_ok;
    http_status = 0;
  }

  abbrev leave : Option Progress → Option Left
  leave none = none
  leave (some p) = some (record {
    kept = p.cur;
    file = p.file;
    state = with_last_flush p.outcome p.http_status p.state;
    is_cleared = p.is_cleared;
  })

  abbrev send : ℕ → State → File → List Bytes → Option Left
  send fuel s f lines = leave (flush_loop formats paired_at fuel turns 0 (start s f lines))

  abbrev pub hold : State → File → List Bytes → Left
  hold s f lines = record {
    kept = lines;
    file = f;
    state = with_last_flush rate_limited 429 s;
    is_cleared = false;
  }

  -- An empty batch is committed as it is, with nothing saved. The fuel is the loop's.
  unfoldable pub flush_batch : ℕ → State → File → List Bytes → Option Left
  unfolding prepare flush_loop is_rate_limited
  flush_batch fuel s f [] = some (record { kept = []; file = f; state = s; is_cleared = false })
  flush_batch fuel s f (l ∷ ls) =
      let lines = prepare s (l ∷ ls) in
      if is_rate_limited formats.parse s clock.limited_at
      then some (hold s f lines)
      else send fuel s f lines

  -- What a run counts of refusals, in terms of the state before it.
  pub record IsCounted (s : State) (left : Left) : Type 0 where
    pub count : left.state.consecutive_401 ≤ s.consecutive_401 + 1
    pub cases :
        (3 ≤ left.state.consecutive_401) × (left.state.unpaired_reason ≡ unpaired_by_phone)
        ⊎ (left.is_cleared ≡ false) × (left.state.unpaired_reason ≡ s.unpaired_reason)

  leave-IsCounted :
      (s : State) (o : Option Progress) (p : Progress)
      → o ≡ some p
      → Ends formats paired_at s o
      → (left : Left) × (leave o ≡ some left) × IsCounted s left
  leave-IsCounted s none p here struck = cc
  leave-IsCounted s (some q) p here struck =
      (_, refl, record { count = struck.count; cases = struck.cases })

  send-IsCounted :
      (fuel n : ℕ) (s : State) (f : File) (lines : List Bytes)
      → n < fuel
      → (turns n).is_over ≡ true
      → (left : Left) × (send fuel s f lines ≡ some left) × IsCounted s left
  send-IsCounted fuel n s f lines enough over =
      let (p, returned) =
        flush_loop-cut_off formats paired_at turns n fuel 0 (start s f lines) enough
          (subst (λ (j : ℕ). (turns j).is_over ≡ true) (omega arith) over) in
      leave-IsCounted s _ p returned (
        flush_loop-Ends formats paired_at s fuel turns 0 (start s f lines)
          (record { is_kept = refl; reason = refl; count = omega arith }))

  -- Whatever is in the batch and whatever the relay answers, a run with a time budget, whose context
  -- is over at the start of some turn, ends by that turn and adds at most one to the count of
  -- consecutive refusals. It deletes the credential only with at least three counted, and then says
  -- why; otherwise the reason on record stays as it was.
  pub flush_batch-IsCounted :
      (fuel n : ℕ) (s : State) (f : File) (batch : List Bytes)
      → n < fuel
      → (turns n).is_over ≡ true
      → (left : Left) × (flush_batch fuel s f batch ≡ some left) × IsCounted s left
  unfolding flush_batch
  flush_batch-IsCounted fuel n s f [] enough over =
      (_, refl, record { count = omega arith; cases = inr (refl, refl) })
  flush_batch-IsCounted fuel n s f (l ∷ ls) enough over =
      elim (Bool-cases (is_rate_limited formats.parse s clock.limited_at)) [
        | inl limited ↦
            rw limited (_, refl, record { count = omega arith; cases = inr (refl, refl) })
        | inr free ↦ rw free (send-IsCounted fuel n s f (prepare s (l ∷ ls)) enough over)
      ]
