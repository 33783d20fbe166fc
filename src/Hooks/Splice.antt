-- ===== src/Hooks/Splice.antt =====
-- internal/hooks/splice.go: rewriting one member of an object in its text. Offsets count bytes.
pub mod Ranges
pub mod Undo
pub mod Laws
use agentpulse_bridge.Base.{
  ℕ, ◌+◌, ◌-◌, Bool, true, false, ◌&&◌, ◌||◌, not, Option, none, some, List, [], ◌∷◌, ◌++◌, ◌==◌,
  String, str_eq, if◌then◌else◌, take, drop, any, last?, Bytes,
}
use agentpulse_bridge.Base.Text.{codes}

pub record Member : Type 0 where
  pub key : String
  pub key_start : ℕ
  pub value_start : ℕ
  pub value_end : ℕ

abbrev pub find_member : List Member → String → Option Member
find_member [] key = none
find_member (m ∷ ms) key = if str_eq m.key key then some m else find_member ms key

-- The text between the start of a position's line and the position.
abbrev pub line_prefix_from : Bytes → Bytes → Bytes
line_prefix_from prefix [] = prefix
line_prefix_from prefix (c ∷ s) = line_prefix_from (if c == b'\n' then [] else prefix ++ c ∷ []) s

abbrev is_indent : ℕ → Bool
is_indent c = c == b' ' || c == b'\t'

abbrev pub indent_or : Bytes → Bytes → Bytes
indent_or [] fallback = fallback
indent_or (c ∷ s) fallback = if any (λ b. not (is_indent b)) (c ∷ s) then fallback else c ∷ s

unfoldable pub leading_indent_of : Bytes → ℕ → Bytes → Bytes
leading_indent_of content pos fallback = indent_or (line_prefix_from [] (take pos content)) fallback

-- `idx`, as the member there with the one before it and the one behind it.
pub data Place : Type 0 where
  absent : Place
  found : Option Member → Member → Option Member → Place

abbrev pub head? : List Member → Option Member
head? [] = none
head? (m ∷ ms) = some m

unfoldable pub locate : String → Option Member → List Member → Place
locate key previous [] = absent
locate key previous (m ∷ ms) =
    if str_eq m.key key then found previous m (head? ms) else locate key (some m) ms

-- `content[:start]`, what is put there, and `content[end:]`.
abbrev pub replaced : Bytes → ℕ → ℕ → Bytes → Bytes
replaced content start end inserted = take start content ++ (inserted ++ drop end content)

abbrev pub quoted_key : String → Bytes
quoted_key key = codes "\"" ++ codes key ++ codes "\": "

module _ (content : Bytes) (brace_open brace_close : ℕ) where
  abbrev pub remove_member : Option Member → Member → Option Member → Bytes
  remove_member none m none = replaced content (brace_open + 1) brace_close []
  remove_member none m (some next) = replaced content m.key_start next.key_start []
  remove_member (some previous) m next = replaced content previous.value_end m.value_end []

  abbrev pub inserted_member : String → Bytes → Bytes → Bytes
  inserted_member key new_value line_indent =
      codes ",\n" ++ line_indent ++ quoted_key key ++ new_value

  abbrev pub insert_member : Option Member → String → Bytes → Bytes → Bytes
  insert_member none key new_value indent =
      replaced content (brace_open + 1) brace_close
        (codes "\n" ++ indent ++ quoted_key key ++ new_value ++ codes "\n")
  insert_member (some last) key new_value indent =
      replaced content last.value_end last.value_end
        (inserted_member key new_value (leading_indent_of content last.key_start indent))

  abbrev pub splice_at : Place → Option Member → String → Option Bytes → Bytes → Bytes
  splice_at absent last key none indent = content
  splice_at (found previous m next) last key none indent = remove_member previous m next
  splice_at (found previous m next) last key (some new_value) indent =
      replaced content m.value_start m.value_end new_value
  splice_at absent last key (some new_value) indent = insert_member last key new_value indent

  unfoldable pub splice_top_level_key : List Member → String → Option Bytes → Bytes → Bytes
  unfolding locate leading_indent_of
  splice_top_level_key members key new_value indent =
      splice_at (locate key none members) (last? members) key new_value indent

-- `detectIndent`, from the lines behind the first.
abbrev pub spaces : Bytes → Bytes
spaces [] = []
spaces (c ∷ s) = let rest = spaces s in if c == b' ' then c ∷ rest else []

abbrev pub line_indent : Bytes → Bytes
line_indent [] = codes "  "
line_indent (c ∷ s) =
    if c == b'\t' then codes "\t" else if c == b' ' then spaces (c ∷ s) else codes "  "

abbrev pub first_nonempty : List Bytes → Bytes
first_nonempty [] = []
first_nonempty ([] ∷ lines) = first_nonempty lines
first_nonempty ((c ∷ s) ∷ lines) = c ∷ s
