-- ===== src/Spool/Encoding.antt =====
-- internal/spool/spool.go: a file that holds whole lines reads back as those lines.
use agentpulse_bridge.Base.{
  ℕ, suc, ◌+◌, ◌≡◌, ◌≢◌, refl, ap, sym, ◌∙◌, false, not, some, List, [], ◌∷◌, ◌++◌, append-nil,
  append_assoc, arith, leb, length, any, keep_if, All, Bytes,
}
use agentpulse_bridge.Spool.Io.{no_faults, ok}
use agentpulse_bridge.Spool.Lines.{
  newline, scan_buffer_cap, is_empty, drop_cr, split, split_lines, count_lines, line_bytes, encode,
  IsLine,
}
use agentpulse_bridge.Spool.Queue.{write_lines}

pub encode-append : (ls ms : List Bytes) → encode (ls ++ ms) ≡ encode ls ++ encode ms
unfolding encode
encode-append [] ms = refl
encode-append (l ∷ ls) ms =
    ap (λ (t : Bytes). line_bytes l ++ t) (encode-append ls ms)
    ∙ sym (append_assoc (line_bytes l) (encode ls) (encode ms))

split-line :
    (l rest : Bytes) → All (λ c. c ≢ newline) l → split (l ++ newline ∷ rest) ≡ l ∷ split rest
unfolding split
split-line [] rest h = refl
split-line (c ∷ l) rest h = ground (arith, split-line l rest h.1)

regroup : (l rest : Bytes) → line_bytes l ++ rest ≡ l ++ newline ∷ rest
regroup l rest = append_assoc l (newline ∷ []) rest

split-encode : (ls : List Bytes) → All IsLine ls → split (encode ls) ≡ ls ++ [] ∷ []
unfolding encode
split-encode [] h = unfold split in refl
split-encode (l ∷ ls) h =
    rw regroup (
      split-line l (encode ls) h.0.no_newline
      ∙ ap (λ (t : List Bytes). l ∷ t) (split-encode ls h.1))

not_empty : (l : Bytes) → is_empty (drop_cr l) ≡ false → is_empty l ≡ false
not_empty [] h = h
not_empty (c ∷ l) h = refl

keep_lines :
    (ls : List Bytes) → All IsLine ls → keep_if (λ l. not (is_empty l)) (ls ++ [] ∷ []) ≡ ls
keep_lines [] h = refl
keep_lines (l ∷ ls) h =
    rw (not_empty l h.0.counted) (ap (λ (t : List Bytes). l ∷ t) (keep_lines ls h.1))

-- Reading back what was written: the lines, in order.
pub split_lines-encode : (ls : List Bytes) → All IsLine ls → split_lines (encode ls) ≡ ls
unfolding split_lines
split_lines-encode ls h = rw (split-encode ls h) (keep_lines ls h)

none_too_long :
    (ls : List Bytes)
    → All IsLine ls
    → any (λ l. leb scan_buffer_cap (length l)) (ls ++ [] ∷ []) ≡ false
none_too_long [] h = refl
none_too_long (l ∷ ls) h = ground (arith, h.0.fits, none_too_long ls h.1)

count_kept :
    (ls : List Bytes)
    → All IsLine ls
    → length (keep_if (λ l. not (is_empty (drop_cr l))) (ls ++ [] ∷ [])) ≡ length ls
count_kept [] h = refl
count_kept (l ∷ ls) h = rw h.0.counted (ap suc (count_kept ls h.1))

-- The streaming count agrees with the lines that `splitLines` gives.
pub count_lines-encode :
    (ls : List Bytes) → All IsLine ls → count_lines (encode ls) ≡ some (length ls)
unfolding count_lines
count_lines-encode ls h = rw (split-encode ls h, none_too_long ls h) (ap some (count_kept ls h))

-- Without a write error the loop leaves every line, whole and in order, behind what was there.
pub write_lines_lem :
    (k : ℕ) (ls : List Bytes) (content : Bytes)
    → write_lines no_faults k ls content ≡ (content ++ encode ls, ok tt)
unfolding write_lines encode
write_lines_lem k [] content = rw append-nil
write_lines_lem k (l ∷ ls) content =
    rw (write_lines_lem (k + 1) ls (content ++ line_bytes l))
      (rw (append_assoc content (line_bytes l) (encode ls)))
