-- ===== src/Spool/Commit.antt =====
-- internal/spool/spool.go: `Drain`, the `Append` calls that run before its commit, and the commit.
use agentpulse_bridge.Base.{
  ℕ, ◌+◌, ◌-◌, ◌≤◌, ◌≡◌, refl, ap, sym, ◌∙◌, Bool, true, not, Option, some, List, [], ◌∷◌, ◌++◌,
  append-nil, append_assoc, arith, leb, le→leb, length, drop, keep_if, length-append, length-drop,
  drop-zero, drop-all, drop-drop, drop-append_le, drop-append_ge, All, All-append, All-drop, Bytes,
  Bool-cases, inl, inr,
}
use agentpulse_bridge.Spool.Io.{no_faults, ok}
use agentpulse_bridge.Spool.Lines.{encode, IsLine}
use agentpulse_bridge.Spool.Queue.{
  cap, Drained, is_malformed, sort_out, drain, clamp, appended_since, rewrite,
}
use agentpulse_bridge.Spool.Encoding.{split_lines-encode, write_lines_lem}
use agentpulse_bridge.Spool.Push.{push, push_all, append_all, append-push}

push-All : (q : List Bytes) (line : Bytes) → All IsLine q → IsLine line → All IsLine (push line q)
push-All q line h l = All-drop IsLine _ _ (All-append IsLine q (line ∷ []) h (l, tt))

push_all-All : (ls q : List Bytes) → All IsLine q → All IsLine ls → All IsLine (push_all ls q)
push_all-All [] q h k = h
push_all-All (l ∷ ls) q h k = push_all-All ls (push l q) (push-All q l h k.0) k.1

append_all-push_all :
    (ls q : List Bytes)
    → All IsLine q
    → All IsLine ls
    → append_all ls (some (encode q)) ≡ some (encode (push_all ls q))
append_all-push_all [] q h k = refl
append_all-push_all (l ∷ ls) q h k =
    ap (λ (r : Option Bytes × _). append_all ls r.0) (append-push q l h)
    ∙ append_all-push_all ls (push l q) (push-All q l h k.0) k.1

-- Clamping early changes nothing: the oldest lines would go in any case.
clamp-append : (xs ys : List Bytes) → clamp (clamp xs ++ ys) ≡ clamp (xs ++ ys)
clamp-append xs ys =
    let d = length xs - cap in
    ap clamp (sym (drop-append_le d xs ys (omega arith)))
    ∙ drop-drop (length (drop d (xs ++ ys)) - cap) d (length (xs ++ ys) - cap) (xs ++ ys)
        (omega (arith, length-drop d (xs ++ ys), length-append xs ys))

push_all_lem : (ls q : List Bytes) → length q ≤ cap → push_all ls q ≡ clamp (q ++ ls)
push_all_lem [] q h = sym (rw append-nil (drop-zero (length q - cap) q (omega arith)))
push_all_lem (l ∷ ls) q h =
    push_all_lem ls (push l q)
      (omega (arith, length-drop (length (q ++ l ∷ []) - cap) (q ++ l ∷ [])))
    ∙ clamp-append (q ++ l ∷ []) ls
    ∙ ap clamp (append_assoc q (l ∷ []) ls)

-- What `rewrite` takes for new lines: of the lines that came since, those behind as many as were
-- evicted.
appended_since-push_all :
    (q ls : List Bytes)
    → length q ≤ cap
    → appended_since (length q) (push_all ls q) ≡ drop (length q + length ls - cap) ls
appended_since-push_all q ls h =
    let evicted = length (q ++ ls) - cap in
    let here : leb (length q) (length (push_all ls q)) ≡ true = le→leb _ _ (
      rw (push_all_lem ls q h)
        (omega (arith, length-drop evicted (q ++ ls), length-append q ls))) in
    rw here (
      rw (push_all_lem ls q h) (
        drop-drop (length q) evicted (length q + evicted) (q ++ ls) refl
        ∙ drop-append_ge (length q + evicted) evicted q ls refl
        ∙ ap (λ (n : ℕ). drop n ls) (omega (arith, length-append q ls))))

-- On a file of whole lines, at most `cap` of them when it was drained:
-- a commit after any number of appends of whole lines leaves the kept lines and then the appended lines, less as
-- many of the oldest appended ones as the appends evicted, clamped to `cap`.
pub rewrite-append_all :
    (q ls keep : List Bytes)
    → length q ≤ cap
    → All IsLine q
    → All IsLine ls
    → rewrite no_faults (append_all ls (some (encode q))) (length q) keep
      ≡ (some (encode (clamp (keep ++ drop (length q + length ls - cap) ls))), ok tt)
unfolding rewrite
rewrite-append_all q ls keep h wf new = rw (append_all-push_all ls q wf new) (
    rw
      (
        split_lines-encode (push_all ls q) (push_all-All ls q wf new),
        appended_since-push_all q ls h,
      )
      (rw write_lines_lem))

-- No append is lost while the file has room for all of them.
pub rewrite_keeps_appended :
    (q ls keep : List Bytes)
    → length q + length ls ≤ cap
    → All IsLine q
    → All IsLine ls
    → rewrite no_faults (append_all ls (some (encode q))) (length q) keep
      ≡ (some (encode (clamp (keep ++ ls))), ok tt)
rewrite_keeps_appended q ls keep room wf new =
    rewrite-append_all q ls keep (omega arith) wf new
    ∙ ap (λ (t : List Bytes). (some (encode (clamp (keep ++ t))), ok tt))
        (drop-zero (length q + length ls - cap) ls (omega arith))

-- On a file of whole lines: when the spool was full at the drain, the commit drops every line appended since, so long as
-- those are at most `cap`: the file holds the kept lines alone.
pub rewrite_full_loses_appended :
    (q ls keep : List Bytes)
    → length q ≡ cap
    → length keep ≤ cap
    → All IsLine q
    → All IsLine ls
    → rewrite no_faults (append_all ls (some (encode q))) (length q) keep
      ≡ (some (encode keep), ok tt)
rewrite_full_loses_appended q ls keep full fits wf new =
    rewrite-append_all q ls keep (omega arith) wf new
    ∙ ap (λ (t : List Bytes). (some (encode (clamp (keep ++ t))), ok tt))
        (drop-all (length q + length ls - cap) ls (omega arith))
    ∙ ap (λ (t : List Bytes). (some (encode t), ok tt))
        (rw append-nil (drop-zero (length keep - cap) keep (omega arith)))

module _ (valid : Bytes → Bool) where
  sort_out_lem :
      (ls : List Bytes)
      → ((sort_out valid ls).batch ≡ keep_if (λ l. not (is_malformed valid l)) ls)
        × ((sort_out valid ls).raw_count ≡ length ls)
        × ((sort_out valid ls).discarded + length (sort_out valid ls).batch ≡ length ls)
  unfolding sort_out
  sort_out_lem [] = (refl, refl, omega arith)
  sort_out_lem (l ∷ ls) =
      let (a, b, c) = sort_out_lem ls in
      elim (Bool-cases (is_malformed valid l)) [
        | inl bad ↦ rw bad (a, omega (arith, b), omega (arith, c))
        | inr good ↦ rw good (ap (λ (t : List Bytes). l ∷ t) a, omega (arith, b), omega (arith, c))
      ]

  -- `Drain` of a file of whole lines leaves the file alone. It returns the well-formed lines in
  -- order, counts the rest as discarded, and remembers how many lines there were.
  pub drain_lem :
      (q : List Bytes)
      → All IsLine q
      → (d : Drained) × (drain valid no_faults (some (encode q)) ≡ (some (encode q), ok d))
        × (d.batch ≡ keep_if (λ l. not (is_malformed valid l)) q)
        × (d.raw_count ≡ length q)
        × (d.discarded + length d.batch ≡ length q)
  unfolding drain
  drain_lem q h =
      let (a, b, c) = sort_out_lem q in (sort_out valid q, rw (split_lines-encode q h), a, b, c)
