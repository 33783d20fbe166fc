-- ===== src/Tests/Settings.antt =====
-- Runs of internal/hooks on a settings file's text.
use agentpulse_bridge.Base.{
  ℕ, Bool, true, false, Option, ◌≤◌, ◌≡◌, refl, inl, inr, none, some, List, [], ◌∷◌, Bytes,
}
use agentpulse_bridge.Base.Text.{Text, codes}
use agentpulse_bridge.Hooks.Diff.{diff, diff_lines}
use agentpulse_bridge.Hooks.Diff.Laws.{old_of, new_of, diff_lines-Shows}
use agentpulse_bridge.Hooks.Diff.Shortest.{kept, diff_lines-keeps_most}
use agentpulse_bridge.Hooks.Splice.{Member, splice_top_level_key}
use agentpulse_bridge.Hooks.Scan.{Decoder, Read, token_read, text_token, close_brace}

abbrev old_lines : List Text
old_lines = codes "{" ∷ codes "a" ∷ codes "b" ∷ codes "}" ∷ []

abbrev new_lines : List Text
new_lines = codes "{" ∷ codes "b" ∷ codes "c" ∷ codes "}" ∷ []

diff_runs : diff (codes "{\na\nb\n}\n") (codes "{\nb\nc\n}") ≡ codes "  {\n- a\n  b\n+ c\n  }\n"
unfolding diff
diff_runs = refl

diff_lines-Shows_example :
    (old_of (diff_lines old_lines new_lines) ≡ old_lines)
    × (new_of (diff_lines old_lines new_lines) ≡ new_lines)
diff_lines-Shows_example = diff_lines-Shows old_lines new_lines

diff_lines-keeps_most_example : 2 ≤ kept (diff_lines old_lines new_lines)
diff_lines-keeps_most_example =
    diff_lines-keeps_most (codes "b" ∷ codes "}" ∷ []) old_lines new_lines
      (inr (inr (inl (refl, inl (refl, tt))))) (inr (inl (refl, inr (inl (refl, tt)))))

abbrev content : Bytes
content = codes "{\n  \"a\": 1\n}\n"

abbrev first_member : Member
first_member = record { key = "a"; key_start = 4; value_start = 9; value_end = 10 }

splice_runs :
    splice_top_level_key content 0 11 (first_member ∷ []) "hooks" (some (codes "{}")) (codes "    ")
    ≡ codes "{\n  \"a\": 1,\n  \"hooks\": {}\n}\n"
unfolding splice_top_level_key
splice_runs = refl

-- A decoder at the member that is put in behind the first.
data Step : Type 0 where
  behind_last behind_key behind_value : Step

abbrev offset : Step → ℕ
offset behind_last = 10
offset behind_key = 21
offset behind_value = 25

abbrev more : Step → Bool
more behind_value = false
more _ = true

abbrev next_token : Step → Read × Step
next_token behind_last = (token_read (text_token "hooks"), behind_key)
next_token s = (token_read close_brace, s)

abbrev decode : Step → Option Step
decode behind_key = some behind_value
decode _ = none

abbrev decoder : Decoder
decoder = record {
  State = Step;
  initial = behind_last;
  token = next_token;
  more = more;
  decode = decode;
  offset = offset;
}
