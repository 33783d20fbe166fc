-- ===== src/Spool/Push.antt =====
-- internal/spool/spool.go: `Append` against a bounded queue of lines that drops its oldest.
use mathlib.Core.Logic.{inl, inr}
use agentpulse_bridge.Base.{
  ℕ, ◌+◌, ◌-◌, ◌≤◌, ◌<◌, ◌≡◌, ◌≢◌, ap, sym, ◌∙◌, false, Option, some, List, [], ◌∷◌, ◌++◌,
  append-nil, arith, ltb, ltb→lt, ltb→le, length, drop, length-append, drop-zero, drop-append_le,
  All, Bytes, Bool-cases, Option-cases,
}
use agentpulse_bridge.Spool.Io.{Faults, no_faults, ok, err, IoError, write_failed}
use agentpulse_bridge.Spool.Lines.{encode, split_lines, line_bytes, IsLine}
use agentpulse_bridge.Spool.Queue.{cap, append, append_evicting, clamp, write_line, write_lines}
use agentpulse_bridge.Spool.Encoding.{
  encode-append, split_lines-encode, count_lines-encode, write_lines_lem,
}

-- The abstract queue: the new line goes to the end, and the oldest go once there are more than `cap`.
abbrev pub push : Bytes → List Bytes → List Bytes
push line q = clamp (q ++ line ∷ [])

abbrev pub push_all : List Bytes → List Bytes → List Bytes
push_all [] q = q
push_all (l ∷ ls) q = push_all ls (push l q)

-- A run of `Append` calls, each on the file that the one before left.
abbrev pub append_all : List Bytes → Option Bytes → Option Bytes
append_all [] file = file
append_all (l ∷ ls) file = append_all ls (append no_faults file l).0

push_room : (q : List Bytes) (line : Bytes) → length q < cap → push line q ≡ q ++ line ∷ []
push_room q line h =
    drop-zero (length (q ++ line ∷ []) - cap) (q ++ line ∷ [])
      (omega (arith, length-append q (line ∷ [])))

push_full :
    (q : List Bytes) (line : Bytes)
    → cap ≤ length q
    → push line q ≡ drop (length q - (cap - 1)) q ++ line ∷ []
push_full q line h =
    ap (λ (n : ℕ). drop n (q ++ line ∷ [])) (omega (arith, length-append q (line ∷ [])))
    ∙ drop-append_le (length q - (cap - 1)) q (line ∷ []) (omega arith)

encode-push_end :
    (q : List Bytes) (line : Bytes) → encode q ++ line_bytes line ≡ encode (q ++ line ∷ [])
encode-push_end q line = sym (
    encode-append q (line ∷ [])
    ∙ ap (λ (t : Bytes). encode q ++ t) (unfold encode in append-nil (line_bytes line)))

-- On a file of whole lines `Append` without a fault is `push`: it keeps at most `cap` lines, drops
-- the oldest ones only when it must, and puts the new line last.
pub append-push :
    (q : List Bytes) (line : Bytes)
    → All IsLine q
    → append no_faults (some (encode q)) line ≡ (some (encode (push line q)), ok tt)
unfolding append write_line append_evicting
append-push q line h = elim (Bool-cases (ltb (length q) cap)) [
  | inl room ↦
      rw (count_lines-encode q h, room, encode-push_end) (rw (push_room q line (ltb→lt _ _ room)))
  | inr full ↦
      rw (count_lines-encode q h, full, split_lines-encode q h)
        (rw (write_lines_lem, push_full q line (ltb→le _ _ full)) (rw encode-push_end))
]

-- The only error of the write loop is a torn write.
write_lines-error :
    (io : Faults) (k : ℕ) (ls : List Bytes) (content : Bytes) {e : IoError}
    → (write_lines io k ls content).1 ≡ err e
    → e ≡ write_failed
unfolding write_lines
write_lines-error io k [] content h = cc
write_lines-error io k (l ∷ ls) content h = elim (Option-cases (io.write k)) [
  | inl sound ↦ write_lines-error io (k + 1) ls (content ++ line_bytes l) (rw sound at h)
  | inr (n, torn) ↦ let h' = rw torn at h in cc
]

append_evicting-error :
    (io : Faults) (line content : Bytes) (e : IoError)
    → io.rewind ≡ false
    → (append_evicting io line content).1 ≡ err e
    → e ≢ write_failed
    → (append_evicting io line content).0 ≡ content
unfolding append_evicting
append_evicting-error io line content e quiet h other =
    let lines = split_lines content in
    ground (arith, write_lines-error io 0 (drop (length lines - (cap - 1)) lines) [] {e = e})

-- An `Append` that fails leaves the file as it was, if the failure is not a torn write and does not
-- fall between the truncation and the rewrite.
pub append_error_keeps :
    (io : Faults) (content line : Bytes) (e : IoError)
    → io.rewind ≡ false
    → (append io (some content) line).1 ≡ err e
    → e ≢ write_failed
    → (append io (some content) line).0 ≡ some content
unfolding append write_line
append_error_keeps io content line e quiet h other =
    ground (arith, append_evicting-error io line content e)
