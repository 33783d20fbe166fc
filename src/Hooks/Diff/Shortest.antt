-- ===== src/Hooks/Diff/Shortest.antt =====
-- internal/hooks/diff.go: a difference keeps as many lines as any can.
use mathlib.Core.Bool.{false≢true}
use agentpulse_bridge.Base.{
  ℕ, zero, suc, ◌≡◌, refl, ap, sym, ◌∙◌, inl, inr, ◌⊎◌, false, List, [], ◌∷◌, ◌+◌, ◌≤◌,
  if◌then◌else◌, leb, Bool-cases, arith, drop, length,
}
use agentpulse_bridge.Base.Text.{Text, same_text}
use agentpulse_bridge.Hooks.Diff.{
  cell, next_cells, top, lcs_row, lcs_table, DiffLine, unchanged, removed, added, all_removed,
  all_added, diff_row, diff_from, diff_lines,
}
use agentpulse_bridge.Hooks.Diff.Laws.{same_text_iff}

abbrev pub kept : List DiffLine → ℕ
kept [] = 0
kept (unchanged line ∷ rest) = kept rest + 1
kept (removed line ∷ rest) = kept rest
kept (added line ∷ rest) = kept rest

-- The first lines are among the second ones, in their order.
abbrev pub IsAmong : List Text → List Text → Type 0
IsAmong [] ys = Unit
IsAmong (c ∷ s) [] = ⊥
IsAmong (c ∷ s) (y ∷ ys) = ((c ≡ y) × IsAmong s ys) ⊎ IsAmong (c ∷ s) ys

-- The table's entry for the lines from here on.
longest : List Text → List Text → ℕ
longest xs ys = cell (top (lcs_table xs ys)) 0

next_cells-top :
    (xs : List Text) (y : Text) (ys : List Text)
    → next_cells (top (lcs_table xs (y ∷ ys))) ≡ top (lcs_table xs ys)
next_cells-top [] y ys = refl
next_cells-top (x ∷ xs) y ys = ap (lcs_row x ys) (next_cells-top xs y ys)

cell-next : (ns : List ℕ) (j : ℕ) → cell ns (suc j) ≡ cell (next_cells ns) j
cell-next [] zero = refl
cell-next [] (suc j) = refl
cell-next (n ∷ ns) j = refl

top-nil : (xs : List Text) → top (lcs_table xs []) ≡ 0 ∷ []
top-nil [] = refl
top-nil (x ∷ xs) = refl

longest-nil : (xs : List Text) → longest xs [] ≡ 0
unfolding longest
longest-nil [] = refl
longest-nil (x ∷ xs) = refl

-- A column of the table is the table of the lines from there on.
cell-longest :
    (xs ys : List Text) (j : ℕ) (later : List Text)
    → drop j ys ≡ later
    → cell (top (lcs_table xs ys)) j ≡ longest xs later
unfolding longest
cell-longest xs ys zero later h = ap (longest xs) h
cell-longest xs [] (suc j) later h = rw (top-nil xs) (sym (longest-nil xs) ∙ ap (longest xs) h)
cell-longest xs (y ∷ ys) (suc j) later h =
    cell-next (top (lcs_table xs (y ∷ ys))) j
    ∙ ap (λ (ns : List ℕ). cell ns j) (next_cells-top xs y ys)
    ∙ cell-longest xs ys j later h

longest-step :
    (x : Text) (xs : List Text) (y : Text) (ys : List Text)
    → longest (x ∷ xs) (y ∷ ys) ≡ (
        if same_text x y
        then longest xs ys + 1
        else if leb (longest (x ∷ xs) ys) (longest xs (y ∷ ys))
        then longest xs (y ∷ ys)
        else longest (x ∷ xs) ys)
unfolding longest
longest-step x xs y ys = rw (cell-next (top (lcs_table xs (y ∷ ys))) 0, next_cells-top xs y ys)

kept-all_removed : (xs : List Text) → kept (all_removed xs) ≡ 0
kept-all_removed [] = refl
kept-all_removed (x ∷ xs) = kept-all_removed xs

kept-all_added : (ys : List Text) → kept (all_added ys) ≡ 0
kept-all_added [] = refl
kept-all_added (y ∷ ys) = kept-all_added ys

longest-none : (ys : List Text) → longest [] ys ≡ 0
unfolding longest
longest-none [] = refl
longest-none (y ∷ ys) = refl

drop-tail :
    (j : ℕ) (y : Text) (ys new_lines : List Text)
    → drop j new_lines ≡ y ∷ ys
    → drop (suc j) new_lines ≡ ys
drop-tail zero y ys [] h = cc
drop-tail zero y ys (z ∷ zs) h = cc
drop-tail (suc j) y ys [] h = cc
drop-tail (suc j) y ys (z ∷ zs) h = drop-tail j y ys zs h

module _ (new_lines : List Text) where
  diff_row-kept :
      (x : Text) (xs : List Text) (go_on : ℕ → List Text → List DiffLine)
      → ((j : ℕ) (ys : List Text) → drop j new_lines ≡ ys → kept (go_on j ys) ≡ longest xs ys)
      → (j : ℕ) (ys : List Text) → drop j new_lines ≡ ys
      → kept (
          diff_row x xs
            (top (lcs_table (x ∷ xs) new_lines))
            (top (lcs_table xs new_lines))
            go_on
            j
            ys)
        ≡ longest (x ∷ xs) ys
  unfolding diff_row
  diff_row-kept x xs go_on counts j [] h = kept-all_removed xs ∙ sym (longest-nil (x ∷ xs))
  diff_row-kept x xs go_on counts j (y ∷ ys) h =
      let next : j + 1 ≡ suc j = omega arith in
      let later : drop (j + 1) new_lines ≡ ys =
        ap (λ (k : ℕ). drop k new_lines) next ∙ drop-tail j y ys new_lines h in
      rw
        (
          cell-longest (x ∷ xs) new_lines (j + 1) ys later,
          cell-longest xs new_lines j (y ∷ ys) h,
          longest-step x xs y ys,
        )
        (elim (Bool-cases (same_text x y)) [
          | inl same ↦ rw same (ap (λ (n : ℕ). n + 1) (counts (j + 1) ys later))
          | inr other ↦ elim (Bool-cases (leb (longest (x ∷ xs) ys) (longest xs (y ∷ ys)))) [
            | inl le ↦ rw (other, le) (counts j (y ∷ ys) h)
            | inr gt ↦ rw (other, gt) (diff_row-kept x xs go_on counts (j + 1) ys later)
          ]
        ])

  diff_from-kept :
      (xs : List Text) (j : ℕ) (ys : List Text)
      → drop j new_lines ≡ ys
      → kept (diff_from xs (lcs_table xs new_lines) j ys) ≡ longest xs ys
  unfolding diff_from
  diff_from-kept [] j ys h = kept-all_added ys ∙ sym (longest-none ys)
  diff_from-kept (x ∷ xs) j ys h =
      diff_row-kept x xs (diff_from xs (lcs_table xs new_lines)) (diff_from-kept xs) j ys h

IsAmong-tail : (c : Text) (s : List Text) (xs : List Text) → IsAmong (c ∷ s) xs → IsAmong s xs
IsAmong-tail c [] xs h = tt
IsAmong-tail c (d ∷ s) [] h = h
IsAmong-tail c (d ∷ s) (x ∷ xs) (inl (e, rest)) = inr rest
IsAmong-tail c (d ∷ s) (x ∷ xs) (inr rest) = inr (IsAmong-tail c (d ∷ s) xs rest)

IsAmong-both_tails :
    (c : Text) (s : List Text) (x : Text) (xs : List Text) → IsAmong (c ∷ s) (x ∷ xs) → IsAmong s xs
IsAmong-both_tails c s x xs (inl (e, rest)) = rest
IsAmong-both_tails c s x xs (inr rest) = IsAmong-tail c s xs rest

-- Different first lines: one of the two is not used.
IsAmong-different :
    (c : Text) (s : List Text) (x : Text) (xs : List Text) (y : Text) (ys : List Text)
    → same_text x y ≡ false
    → IsAmong (c ∷ s) (x ∷ xs)
    → IsAmong (c ∷ s) (y ∷ ys)
    → IsAmong (c ∷ s) xs ⊎ IsAmong (c ∷ s) ys
IsAmong-different c s x xs y ys other (inr hx) hy = inl hx
IsAmong-different c s x xs y ys other (inl hx) (inr hy) = inr hy
IsAmong-different c s x xs y ys other (inl (ex, hx)) (inl (ey, hy)) =
    absurd (false≢true (sym other ∙ (same_text_iff x y).1 (sym ex ∙ ey)))

longest-grows :
    (x : Text) (xs : List Text) (y : Text) (ys : List Text)
    → same_text x y ≡ false
    → (longest xs (y ∷ ys) ≤ longest (x ∷ xs) (y ∷ ys))
      × (longest (x ∷ xs) ys ≤ longest (x ∷ xs) (y ∷ ys))
longest-grows x xs y ys other = rw (longest-step x xs y ys, other) (ground arith)

longest-ge : (s xs ys : List Text) → IsAmong s xs → IsAmong s ys → length s ≤ longest xs ys
longest-ge [] xs ys hx hy = omega arith
longest-ge (c ∷ s) [] ys hx hy = absurd hx
longest-ge (c ∷ s) (x ∷ xs) [] hx hy = absurd hy
longest-ge (c ∷ s) (x ∷ xs) (y ∷ ys) hx hy = elim (Bool-cases (same_text x y)) [
  | inl same ↦
      let shorter : length s ≤ longest xs ys =
        longest-ge s xs ys (IsAmong-both_tails c s x xs hx) (IsAmong-both_tails c s y ys hy) in
      rw (longest-step x xs y ys, same) (omega (arith, shorter))
  | inr other ↦
      let (old, new) = longest-grows x xs y ys other in
      elim (IsAmong-different c s x xs y ys other hx hy) [
        | inl left ↦ omega (arith, longest-ge (c ∷ s) xs (y ∷ ys) left hy, old)
        | inr right ↦ omega (arith, longest-ge (c ∷ s) (x ∷ xs) ys hx right, new)
      ]
]

-- No lines that are, in their order, among the old ones and among the new ones are more than those
-- that the difference shows as unchanged.
pub diff_lines-keeps_most :
    (s old_lines new_lines : List Text)
    → IsAmong s old_lines
    → IsAmong s new_lines
    → length s ≤ kept (diff_lines old_lines new_lines)
unfolding diff_lines
diff_lines-keeps_most s old_lines new_lines hx hy = omega (
  arith,
  longest-ge s old_lines new_lines hx hy,
  diff_from-kept new_lines old_lines 0 new_lines refl,
)
