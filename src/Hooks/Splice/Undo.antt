-- ===== src/Hooks/Splice/Undo.antt =====
-- internal/hooks/splice.go: a member that was put in can be taken out again.
use agentpulse_bridge.Base.{
  ℕ, ◌+◌, ◌≤◌, ◌≡◌, refl, ap, ◌∙◌, inl, inr, true, Option, none, some, List, [], ◌∷◌, ◌++◌,
  append-nil, String, str_eq, last?, Bool-cases, arith, Bytes, take, drop, take-append-drop, length,
  length-append, drop-append_ge, take-append_ge, eq_iff, zero, suc,
}
use agentpulse_bridge.Base.Text.{codes}
use agentpulse_bridge.Hooks.Splice.{
  Member, absent, found, locate, replaced, splice_top_level_key, leading_indent_of, inserted_member,
  quoted_key,
}

-- The member that is put in behind an offset (Hooks.Scan.Added: what scanObject's loop finds).
abbrev pub put_behind : String → ℕ → Bytes → Bytes → Member
put_behind key start line_indent new_value =
    let key_start = start + 2 + length line_indent in
    let value_start = key_start + length (quoted_key key) in
    record {
      key = key;
      key_start = key_start;
      value_start = value_start;
      value_end = value_start + length new_value;
    }

pub length-take_le : (n : ℕ) (s : Bytes) → n ≤ length s → length (take n s) ≡ n
length-take_le zero s h = refl
length-take_le (suc n) [] h = absurd (omega arith)
length-take_le (suc n) (c ∷ s) h = omega (arith, length-take_le n s (omega arith))

-- What was put in at an offset, taken out again.
take_out :
    (content inserted : Bytes) (start end : ℕ)
    → start ≤ length content
    → end ≡ start + length inserted
    → replaced (replaced content start start inserted) start end [] ≡ content
take_out content inserted start end le e =
    let long : length (take start content) ≡ start = length-take_le start content le in
    let rest = drop start content in
    let start_again : take start (take start content ++ (inserted ++ rest)) ≡ take start content =
      take-append_ge start 0 (take start content) (inserted ++ rest) (omega (arith, long))
      ∙ append-nil (take start content) in
    let end_again : drop end (take start content ++ (inserted ++ rest)) ≡ rest =
      drop-append_ge end (length inserted) (take start content) (inserted ++ rest)
        (omega (arith, long, e))
      ∙ drop-append_ge (length inserted) 0 inserted rest (omega arith) in
    rw (start_again, end_again) (take-append-drop start content)

locate-last :
    (key : String) (previous : Option Member) (m : Member) (ms : List Member) (new last : Member)
    → str_eq new.key key ≡ true
    → last? (m ∷ ms) ≡ some last
    → locate key previous (m ∷ ms) ≡ absent
    → locate key previous ((m ∷ ms) ++ new ∷ []) ≡ found (some last) new none
unfolding locate
locate-last key previous m [] new last is_key e h = elim (Bool-cases (str_eq m.key key)) [
  | inl same ↦ cc
  | inr other ↦ rw (other, is_key) (ap (λ (x : Option Member). found x new none) e)
]
locate-last key previous m (n ∷ ms) new last is_key e h = elim (Bool-cases (str_eq m.key key)) [
  | inl same ↦ cc
  | inr other ↦ rw other (locate-last key (some m) n ms new last is_key e (rw other at h))
]

length-inserted_member :
    (content : Bytes) (brace_open brace_close : ℕ) (key : String) (new_value line_indent : Bytes)
    → length (inserted_member content brace_open brace_close key new_value line_indent)
      ≡ 2 + length line_indent + length (quoted_key key) + length new_value
length-inserted_member content brace_open brace_close key new_value line_indent =
    length-append (codes ",\n" ++ line_indent ++ quoted_key key) new_value
    ∙ omega (
      arith,
      length-append (codes ",\n" ++ line_indent) (quoted_key key),
      length-append (codes ",\n") line_indent,
    )

-- A member put in behind the last one, and then taken out from where it was put, leaves the text as
-- it was, where the key was not there, and the last member ends within the text.
pub remove-insert :
    (content : Bytes) (brace_open brace_close new_close : ℕ) (first : Member) (rest : List Member)
    (last : Member) (key : String) (new_value indent : Bytes)
    → locate key none (first ∷ rest) ≡ absent
    → last? (first ∷ rest) ≡ some last
    → last.value_end ≤ length content
    → splice_top_level_key
        (splice_top_level_key content brace_open brace_close
          (first ∷ rest)
          key
          (some new_value)
          indent)
        brace_open
        new_close
        ((first ∷ rest)
          ++ put_behind key last.value_end
              (leading_indent_of content last.key_start indent)
              new_value
            ∷ [])
        key
        none
        indent
      ≡ content
unfolding splice_top_level_key
remove-insert content brace_open brace_close new_close first rest last key new_value indent h e le =
    let line_indent = leading_indent_of content last.key_start indent in
    let new = put_behind key last.value_end line_indent new_value in
    let inserted = inserted_member content brace_open brace_close key new_value line_indent in
    rw (h, e, locate-last key none first rest new last ((eq_iff key key).1 refl) e h)
      (take_out content inserted last.value_end new.value_end le (
        omega
          (arith, length-inserted_member content brace_open brace_close key new_value line_indent)))
