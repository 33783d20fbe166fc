-- ===== src/Hooks/Diff/Laws.antt =====
-- internal/hooks/diff.go: a difference holds both texts' lines.
use agentpulse_bridge.Base.{
  ℕ, ◌≡◌, refl, ap, ◌∙◌, inl, inr, true, List, [], ◌∷◌, ◌+◌, leb, Bool-cases, ==_iff, arith, ◌↔◌,
}
use agentpulse_bridge.Base.Text.{Text, same_text}
use agentpulse_bridge.Hooks.Diff.{
  cell, top, below_top, DiffLine, unchanged, removed, added, all_removed, all_added, diff_row,
  diff_from, diff_lines, lcs_table,
}

-- The lines that a difference shows of the old text, and those of the new one.
abbrev pub old_of : List DiffLine → List Text
old_of [] = []
old_of (unchanged line ∷ rest) = line ∷ old_of rest
old_of (removed line ∷ rest) = line ∷ old_of rest
old_of (added line ∷ rest) = old_of rest

abbrev pub new_of : List DiffLine → List Text
new_of [] = []
new_of (unchanged line ∷ rest) = line ∷ new_of rest
new_of (removed line ∷ rest) = new_of rest
new_of (added line ∷ rest) = line ∷ new_of rest

pub same_text_iff : (x y : Text) → (same_text x y ≡ true) ↔ (x ≡ y)
same_text_iff [] [] = (λ h. refl, λ h. refl)
same_text_iff [] (d ∷ t) = (λ h. cc, λ h. cc)
same_text_iff (c ∷ s) [] = (λ h. cc, λ h. cc)
same_text_iff (c ∷ s) (d ∷ t) = ground (arith, ==_iff c d, same_text_iff s t)

all_removed_lem : (xs : List Text) → (old_of (all_removed xs) ≡ xs) × (new_of (all_removed xs) ≡ [])
all_removed_lem [] = (refl, refl)
all_removed_lem (x ∷ xs) = (ap (◌∷◌ x) (all_removed_lem xs).0, (all_removed_lem xs).1)

all_added_lem : (ys : List Text) → (old_of (all_added ys) ≡ []) × (new_of (all_added ys) ≡ ys)
all_added_lem [] = (refl, refl)
all_added_lem (y ∷ ys) = ((all_added_lem ys).0, ap (◌∷◌ y) (all_added_lem ys).1)

abbrev Shows : List Text → List Text → List DiffLine → Type 0
Shows xs ys lines = (old_of lines ≡ xs) × (new_of lines ≡ ys)

diff_row-Shows :
    (x : Text) (xs : List Text) (here below : List ℕ) (go_on : ℕ → List Text → List DiffLine)
    → ((j : ℕ) (ys : List Text) → Shows xs ys (go_on j ys))
    → (j : ℕ) (ys : List Text) → Shows (x ∷ xs) ys (diff_row x xs here below go_on j ys)
unfolding diff_row
diff_row-Shows x xs here below go_on shows j [] =
    (ap (◌∷◌ x) (all_removed_lem xs).0, (all_removed_lem xs).1)
diff_row-Shows x xs here below go_on shows j (y ∷ ys) = elim (Bool-cases (same_text x y)) [
  | inl same ↦
      let equal : x ≡ y = (same_text_iff x y).0 same in
      let (old, new) = shows (j + 1) ys in
      rw same
        (ap (◌∷◌ x) old, ap (λ (t : Text). t ∷ new_of (go_on (j + 1) ys)) equal ∙ ap (◌∷◌ y) new)
  | inr other ↦ elim (Bool-cases (leb (cell here (j + 1)) (cell below j))) [
    | inl le ↦ let (old, new) = shows j (y ∷ ys) in rw (other, le) (ap (◌∷◌ x) old, new)
    | inr gt ↦
        let (old, new) = diff_row-Shows x xs here below go_on shows (j + 1) ys in
        rw (other, gt) (old, ap (◌∷◌ y) new)
  ]
]

diff_from-Shows :
    (xs : List Text) (rows : List (List ℕ)) (j : ℕ) (ys : List Text)
    → Shows xs ys (diff_from xs rows j ys)
unfolding diff_from
diff_from-Shows [] rows j ys = all_added_lem ys
diff_from-Shows (x ∷ xs) rows j ys =
    diff_row-Shows x xs (top rows) (top (below_top rows)) (diff_from xs (below_top rows))
      (diff_from-Shows xs (below_top rows)) j ys

-- Whatever the two texts, the lines of the difference that are unchanged or removed are the old
-- text's lines in their order, and those that are unchanged or added are the new text's.
pub diff_lines-Shows :
    (old_lines new_lines : List Text)
    → (old_of (diff_lines old_lines new_lines) ≡ old_lines)
      × (new_of (diff_lines old_lines new_lines) ≡ new_lines)
unfolding diff_lines
diff_lines-Shows old_lines new_lines =
    diff_from-Shows old_lines (lcs_table old_lines new_lines) 0 new_lines
