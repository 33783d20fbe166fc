-- ===== src/Tests/Spool.antt =====
-- Runs of internal/spool/spool.go.
use agentpulse_bridge.Base.{
  ℕ, suc, zero, ◌+◌, ◌≡◌, ◌≢◌, refl, ap, true, none, some, List, [], ◌∷◌, ◌++◌, arith, length, drop,
  keep_if, not, All, Bytes,
}
use agentpulse_bridge.Base.Text.{codes}
use agentpulse_bridge.Spool.Io.{Faults, no_faults, ok, lock_failed}
use agentpulse_bridge.Spool.Lines.{encode, count_lines, IsLine}
use agentpulse_bridge.Spool.Queue.{
  append, clamp, drain, rewrite, Drained, is_malformed, depth, write_line,
}
use agentpulse_bridge.Spool.Push.{push, append_all, append-push, append_error_keeps}
use agentpulse_bridge.Spool.Commit.{rewrite-append_all, rewrite_full_loses_appended, drain_lem}

abbrev line : Bytes
line = codes "{}"

line-IsLine : IsLine line
line-IsLine = record { no_newline = (ne, (other, tt)); fits = omega arith; counted = refl }
  where
    ne : ◌≢◌ {A = ℕ} b'{' b'\n'
    ne = omega arith

    other : ◌≢◌ {A = ℕ} b'}' b'\n'
    other = omega arith

append_runs : append no_faults (some (codes "{}\n")) (codes "[]") ≡ (some (codes "{}\n[]\n"), ok tt)
unfolding append count_lines write_line
append_runs = refl

append_to_missing : append no_faults none (codes "[]") ≡ (some (codes "[]\n"), ok tt)
unfolding append count_lines write_line
append_to_missing = refl

depth_runs : depth no_faults (some (codes "{}\n\n[]\n")) ≡ ok 2
unfolding depth count_lines
depth_runs = refl

append-push_example :
    append no_faults (some (encode (line ∷ []))) line
    ≡ (some (encode (push line (line ∷ []))), ok tt)
append-push_example = append-push (line ∷ []) line (line-IsLine, tt)

abbrev locked : Faults
locked = record no_faults { lock = true }

append_error_keeps_example : (append locked (some line) line).0 ≡ some line
unfolding append
append_error_keeps_example = append_error_keeps locked line line lock_failed refl refl (λ e. cc)

drain_lem_example :
    (d : Drained) × (drain (λ _. true) no_faults (some (encode (line ∷ [])))
      ≡ (some (encode (line ∷ [])), ok d))
    × (d.batch ≡ keep_if (λ l. not (is_malformed (λ _. true) l)) (line ∷ []))
    × (d.raw_count ≡ length (line ∷ []))
    × (d.discarded + length d.batch ≡ length (line ∷ []))
drain_lem_example = drain_lem (λ _. true) (line ∷ []) (line-IsLine, tt)

rewrite-append_all_example :
    rewrite no_faults (append_all (line ∷ []) (some (encode (line ∷ line ∷ [])))) 2 (line ∷ [])
    ≡ (some (encode (clamp ((line ∷ []) ++ drop 0 (line ∷ [])))), ok tt)
rewrite-append_all_example =
    rewrite-append_all (line ∷ line ∷ []) (line ∷ []) (line ∷ []) (omega arith)
      (line-IsLine, (line-IsLine, tt)) (line-IsLine, tt)

copies : ℕ → List Bytes
copies zero = []
copies (suc n) = line ∷ copies n

length-copies : (n : ℕ) → length (copies n) ≡ n
unfolding copies
length-copies zero = refl
length-copies (suc n) = ap suc (length-copies n)

copies-All : (n : ℕ) → All IsLine (copies n)
unfolding copies
copies-All zero = tt
copies-All (suc n) = (line-IsLine, copies-All n)

-- A full spool, one event appended while it is being sent, nothing delivered but the batch.
rewrite_full_loses_appended_example :
    rewrite no_faults (append_all (line ∷ []) (some (encode (copies 500)))) (length (copies 500)) []
    ≡ (some (encode []), ok tt)
rewrite_full_loses_appended_example =
    rewrite_full_loses_appended (copies 500) (line ∷ []) [] (length-copies 500) (omega arith)
      (copies-All 500) (line-IsLine, tt)
