-- ===== src/Classify/Names.antt =====
-- internal/classify/subagent.go, classify.go and project.go: the three texts that may leave the
-- machine, each cleaned and cut. Texts are code points.
pub mod Wire
use mathlib.Core.List.{reverse}
use agentpulse_bridge.Base.{
  ℕ, ◌≡◌, refl, Bool, true, false, ◌&&◌, ◌||◌, List, [], ◌∷◌, ◌++◌, ◌==◌, if◌then◌else◌, take,
}
use agentpulse_bridge.Base.Text.{Text, codes, is_digit, is_lower, is_upper, is_space, trim_space}

abbrev pub max_subagent_type_runes : ℕ
max_subagent_type_runes = 40

abbrev pub max_task_label_runes : ℕ
max_task_label_runes = 80

abbrev pub max_project_name_runes : ℕ
max_project_name_runes = 64

abbrev pub is_alnum : ℕ → Bool
is_alnum c = is_lower c || is_upper c || is_digit c

abbrev pub is_type_char : ℕ → Bool
is_type_char c = is_alnum c || c == b'.' || c == b'_' || c == b':' || c == b'-'

abbrev pub all_type_chars : Text → Bool
all_type_chars [] = true
all_type_chars (c ∷ s) = is_type_char c && all_type_chars s

abbrev pub fallback_subagent_type : Text
fallback_subagent_type = codes "subagent"

abbrev pub checked_type : Text → Text
checked_type [] = fallback_subagent_type
checked_type (c ∷ s) = if is_alnum c && all_type_chars s then c ∷ s else fallback_subagent_type

unfoldable pub subagent_type : Text → Text
unfolding trim_space
subagent_type agent_type = checked_type (take max_subagent_type_runes (trim_space agent_type))

abbrev is_line_end : ℕ → Bool
is_line_end c = c == b'\r' || c == b'\n'

abbrev pub first_line : Text → Text
first_line [] = []
first_line (c ∷ s) = let rest = first_line s in if is_line_end c then [] else c ∷ rest

-- `strings.Fields`, from the word read so far, in reverse.
abbrev pub close_word : Text → List Text → List Text
close_word [] words = words
close_word (c ∷ s) words = reverse (c ∷ s) ∷ words

abbrev pub fields_from : Text → Text → List Text
fields_from word [] = close_word word []
fields_from word (c ∷ s) =
    let closed = close_word word (fields_from [] s) in
    let longer = fields_from (c ∷ word) s in if is_space c then closed else longer

abbrev pub join_words : List Text → Text
join_words [] = []
join_words (w ∷ []) = w
join_words (w ∷ v ∷ ws) = w ++ 32 ∷ join_words (v ∷ ws)

unfoldable pub first_line_task_label : Text → Text
unfolding is_space
first_line_task_label prompt =
    take max_task_label_runes (join_words (fields_from [] (first_line prompt)))

-- `filepath.Base`: the last element, with `dropped` for the slashes already taken off the end.
abbrev drop_slashes : Text → Text
drop_slashes [] = []
drop_slashes (c ∷ s) = if c == b'/' then drop_slashes s else c ∷ s

abbrev until_slash : Text → Text
until_slash [] = []
until_slash (c ∷ s) = let rest = until_slash s in if c == b'/' then [] else c ∷ rest

abbrev base_of_reversed : Text → Text
base_of_reversed [] = codes "/"
base_of_reversed (c ∷ s) = reverse (until_slash (c ∷ s))

unfoldable pub base : Text → Text
base [] = codes "."
base (c ∷ s) = base_of_reversed (drop_slashes (reverse (c ∷ s)))

abbrev pub has_separator : Text → Bool
has_separator [] = false
has_separator (c ∷ s) = c == b'/' || c == b'\\' || has_separator s

abbrev pub is_dot : Text → Bool
is_dot (c ∷ []) = c == b'.'
is_dot _ = false

abbrev pub fallback_project_name : Text
fallback_project_name = codes "project"

abbrev pub checked_name : Text → Text
checked_name [] = fallback_project_name
checked_name (c ∷ s) =
    if is_dot (c ∷ s) || has_separator (c ∷ s)
    then fallback_project_name
    else take max_project_name_runes (c ∷ s)

unfoldable pub project_name : Text → Text
unfolding base
project_name key = checked_name (base key)

name_of_path : project_name (codes "/home/u/work/") ≡ codes "work"
unfolding project_name
name_of_path = refl

name_of_root : project_name (codes "/") ≡ codes "project"
unfolding project_name
name_of_root = refl

label_of_prompt : first_line_task_label (codes "  fix   the  bug \nmore") ≡ codes "fix the bug"
unfolding first_line_task_label
label_of_prompt = refl

type_of_agent : subagent_type (codes " code-reviewer ") ≡ codes "code-reviewer"
unfolding subagent_type
type_of_agent = refl
