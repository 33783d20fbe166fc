-- ===== src/Hooks/Diff.antt =====
-- internal/hooks/diff.go: the line by line difference of two texts.
pub mod Laws
pub mod Shortest
use agentpulse_bridge.Base.{
  ℕ, zero, suc, ◌+◌, Bool, true, false, List, [], ◌∷◌, ◌++◌, ◌==◌, leb, if◌then◌else◌,
}
use agentpulse_bridge.Base.Text.{Text, codes, same_text}

-- `strings.TrimRight` of line ends.
abbrev pub before_trimmed : ℕ → Text → Text
before_trimmed c [] = if c == b'\n' then [] else c ∷ []
before_trimmed c (d ∷ t) = c ∷ d ∷ t

abbrev pub drop_line_ends : Text → Text
drop_line_ends [] = []
drop_line_ends (c ∷ s) = before_trimmed c (drop_line_ends s)

-- `strings.Split` at line ends.
abbrev pub with_first : ℕ → List Text → List Text
with_first c [] = (c ∷ []) ∷ []
with_first c (line ∷ lines) = (c ∷ line) ∷ lines

abbrev pub split_at_line_ends : Text → List Text
split_at_line_ends [] = [] ∷ []
split_at_line_ends (c ∷ s) =
    let rest = split_at_line_ends s in if c == b'\n' then [] ∷ rest else with_first c rest

unfoldable pub split_lines : Text → List Text
split_lines [] = []
split_lines (c ∷ s) = split_at_line_ends (drop_line_ends (c ∷ s))

-- `lcs[i][j]`, from the row.
abbrev pub cell : List ℕ → ℕ → ℕ
cell [] j = 0
cell (n ∷ ns) zero = n
cell (n ∷ ns) (suc j) = cell ns j

abbrev pub next_cells : List ℕ → List ℕ
next_cells [] = []
next_cells (n ∷ ns) = ns

-- `lcs[i]` from `lcs[i+1]`, for the line `oldLines[i]`, from its last cell on.
abbrev pub lcs_row : Text → List Text → List ℕ → List ℕ
lcs_row x [] below = 0 ∷ []
lcs_row x (y ∷ ys) below =
    let after = lcs_row x ys (next_cells below) in
    (if same_text x y
      then cell below 1 + 1
      else if leb (cell after 0) (cell below 0)
      then cell below 0
      else cell after 0)
    ∷ after

abbrev pub zeros : List Text → List ℕ
zeros [] = 0 ∷ []
zeros (y ∷ ys) = 0 ∷ zeros ys

abbrev pub top : List (List ℕ) → List ℕ
top [] = []
top (row ∷ rows) = row

abbrev pub below_top : List (List ℕ) → List (List ℕ)
below_top [] = []
below_top (row ∷ rows) = rows

-- The table, from its last row on.
abbrev pub lcs_table : List Text → List Text → List (List ℕ)
lcs_table [] new_lines = zeros new_lines ∷ []
lcs_table (x ∷ xs) new_lines =
    let rows = lcs_table xs new_lines in lcs_row x new_lines (top rows) ∷ rows

pub data DiffLine : Type 0 where
  unchanged removed added : Text → DiffLine

abbrev pub all_removed : List Text → List DiffLine
all_removed [] = []
all_removed (x ∷ xs) = removed x ∷ all_removed xs

abbrev pub all_added : List Text → List DiffLine
all_added [] = []
all_added (y ∷ ys) = added y ∷ all_added ys

-- The turns of the loop at the old line `x`, from column `j` on, with the rows `lcs[i]` and
-- `lcs[i+1]`; `go_on` is the loop from the next old line.
unfoldable pub diff_row :
    Text
    → List Text
    → List ℕ
    → List ℕ
    → (ℕ → List Text → List DiffLine)
    → ℕ
    → List Text
    → List DiffLine
diff_row x xs here below go_on j [] = removed x ∷ all_removed xs
diff_row x xs here below go_on j (y ∷ ys) =
    let further = added y ∷ diff_row x xs here below go_on (j + 1) ys in
    if same_text x y
    then unchanged x ∷ go_on (j + 1) ys
    else if leb (cell here (j + 1)) (cell below j)
    then removed x ∷ go_on j (y ∷ ys)
    else further

unfoldable pub diff_from : List Text → List (List ℕ) → ℕ → List Text → List DiffLine
unfolding diff_row
diff_from [] rows j ys = all_added ys
diff_from (x ∷ xs) rows j ys =
    diff_row x xs (top rows) (top (below_top rows)) (diff_from xs (below_top rows)) j ys

unfoldable pub diff_lines : List Text → List Text → List DiffLine
unfolding diff_from
diff_lines old_lines new_lines = diff_from old_lines (lcs_table old_lines new_lines) 0 new_lines

abbrev pub print : List DiffLine → Text
print [] = []
print (unchanged line ∷ rest) = codes "  " ++ line ++ codes "\n" ++ print rest
print (removed line ∷ rest) = codes "- " ++ line ++ codes "\n" ++ print rest
print (added line ∷ rest) = codes "+ " ++ line ++ codes "\n" ++ print rest

unfoldable pub diff : Text → Text → Text
unfolding diff_lines split_lines
diff old_text new_text = print (diff_lines (split_lines old_text) (split_lines new_text))
