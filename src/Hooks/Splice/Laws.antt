-- ===== src/Hooks/Splice/Laws.antt =====
-- internal/hooks/splice.go: what a rewriting of one member touches, and taking it back.
use agentpulse_bridge.Base.{
  ℕ, ◌+◌, ◌≤◌, ◌<◌, ◌≡◌, refl, sym, subst, inl, inr, true, Option, none, some, List, [], ◌∷◌, ◌++◌,
  String, str_eq, last?, arith, Bytes, take-append-drop,
}
use agentpulse_bridge.Base.Text.{codes}
use agentpulse_bridge.Hooks.Splice.{
  Member, Place, absent, found, head?, locate, replaced, remove_member, insert_member, splice_at,
  splice_top_level_key, leading_indent_of, inserted_member, quoted_key,
}
use agentpulse_bridge.Hooks.Splice.Ranges.{
  IsOrdered, IsOrdered-le, end_of, split-IsOrdered, All-end_by, All-start_from, last_or,
  locate-IsFound, OthersAside, All-weaken, others_aside, last_or-end_of, last_ends_all,
}

last?-some : (m : Member) (ms : List Member) → last? (m ∷ ms) ≡ none → ⊥
last?-some m [] h = cc
last?-some m (n ∷ ms) h = last?-some n ms h

module _ (content : Bytes) (brace_open brace_close : ℕ) (key : String) where
  -- One range between the braces is replaced, and no other member's key or value is in it.
  abbrev pub IsEdit : List Member → Bytes → Type 0
  IsEdit members result =
      (start : ℕ) × (end : ℕ) × (inserted : Bytes) × (result ≡ replaced content start end inserted)
      × (brace_open < start)
      × (start ≤ end)
      × (end ≤ brace_close)
      × OthersAside key start end members

  remove_member-IsEdit :
      (before : List Member) (m : Member) (after : List Member)
      → str_eq m.key key ≡ true
      → IsOrdered (brace_open + 1) brace_close (before ++ m ∷ after)
      → IsEdit
          (before ++ m ∷ after)
          (remove_member content brace_open brace_close (last_or none before) m (head? after))
  remove_member-IsEdit [] m [] is_key (a, b, c, d) = (
    brace_open + 1,
    brace_close,
    [],
    refl,
    omega arith,
    omega (arith, a, b, c, d),
    omega arith,
    others_aside key (brace_open + 1) brace_close [] m [] is_key tt tt,
  )
  remove_member-IsEdit [] m (n ∷ after) is_key (a, b, c, (d, e, f, h)) = (
    m.key_start,
    n.key_start,
    [],
    refl,
    omega (arith, a),
    omega (arith, b, c, d),
    omega (arith, e, f, IsOrdered-le n.value_end brace_close after h),
    others_aside key m.key_start n.key_start [] m (n ∷ after) is_key tt (
      omega arith,
      All-start_from n.value_end n.key_start brace_close after (omega (arith, e, f)) h,
    ),
  )
  remove_member-IsEdit (x ∷ xs) m after is_key h =
      let (left, (a, b, c, d)) =
        split-IsOrdered (brace_open + 1) brace_close (x ∷ xs) (m ∷ after) h in
      let (previous, is_last, ends) = last_or-end_of x xs in
      rw is_last (
        previous.value_end,
        m.value_end,
        [],
        refl,
        omega (arith, IsOrdered-le (brace_open + 1) (end_of x.value_end xs) (x ∷ xs) left, ends),
        omega (arith, a, b, c, ends),
        IsOrdered-le m.value_end brace_close after d,
        others_aside key previous.value_end m.value_end (x ∷ xs) m after is_key
            (All-weaken (x ∷ xs) (λ y le. omega (arith, le, ends))
              (All-end_by (brace_open + 1) (end_of x.value_end xs) (x ∷ xs) left))
            (All-start_from m.value_end m.value_end brace_close after (omega arith) d),
      )

  replace_member-IsEdit :
      (before : List Member) (m : Member) (after : List Member) (new_value : Bytes)
      → str_eq m.key key ≡ true
      → IsOrdered (brace_open + 1) brace_close (before ++ m ∷ after)
      → IsEdit (before ++ m ∷ after) (replaced content m.value_start m.value_end new_value)
  replace_member-IsEdit before m after new_value is_key h =
      let (left, (a, b, c, d)) =
        split-IsOrdered (brace_open + 1) brace_close before (m ∷ after) h in
      let first = IsOrdered-le (brace_open + 1) (end_of (brace_open + 1) before) before left in
      (
        m.value_start,
        m.value_end,
        new_value,
        refl,
        omega (arith, first, a, b),
        c,
        IsOrdered-le m.value_end brace_close after d,
        others_aside key m.value_start m.value_end before m after is_key
            (All-weaken before (λ x le. omega (arith, le, a, b))
              (All-end_by (brace_open + 1) (end_of (brace_open + 1) before) before left))
            (All-start_from m.value_end m.value_end brace_close after (omega arith) d),
      )

  insert_member-IsEdit :
      (members : List Member) (last : Option Member) (new_value indent : Bytes)
      → last? members ≡ last
      → IsOrdered (brace_open + 1) brace_close members
      → IsEdit members (insert_member content brace_open brace_close last key new_value indent)
  insert_member-IsEdit [] none new_value indent e h = (
    brace_open + 1,
    brace_close,
    codes "\n" ++ indent ++ quoted_key key ++ new_value ++ codes "\n",
    refl,
    omega arith,
    h,
    omega arith,
    tt,
  )
  insert_member-IsEdit (m ∷ ms) none new_value indent e h = absurd (last?-some m ms e)
  insert_member-IsEdit members (some last) new_value indent e h =
      let (ordered, le, ge) = last_ends_all (brace_open + 1) brace_close members last e h in
      (
        last.value_end,
        last.value_end,
        inserted_member content brace_open brace_close key new_value
            (leading_indent_of content last.key_start indent),
        refl,
        omega (arith, ge),
        omega arith,
        le,
        All-weaken members (λ x end other. inl end)
            (All-end_by (brace_open + 1) last.value_end members ordered),
      )

  splice_at-IsEdit :
      (members : List Member) (place : Place) (new_value : Option Bytes) (indent : Bytes)
      → locate key none members ≡ place
      → IsOrdered (brace_open + 1) brace_close members
      → IsEdit members
          (splice_at content brace_open brace_close place (last? members) key new_value indent)
  splice_at-IsEdit members absent none indent e h = (
    brace_open + 1,
    brace_open + 1,
    [],
    sym (take-append-drop (brace_open + 1) content),
    omega arith,
    omega arith,
    IsOrdered-le (brace_open + 1) brace_close members h,
    All-weaken members (λ x from other. inr from)
        (All-start_from (brace_open + 1) (brace_open + 1) brace_close members (omega arith) h),
  )
  splice_at-IsEdit members absent (some new_value) indent e h =
      insert_member-IsEdit members (last? members) new_value indent refl h
  splice_at-IsEdit members (found p m n) none indent e h =
      let f = locate-IsFound key none members p m n e in
      let ordered = subst (IsOrdered (brace_open + 1) brace_close) f.is_list h in
      subst (λ (ms : List Member). IsEdit ms (remove_member content brace_open brace_close p m n))
        (sym f.is_list)
        (subst
          (λ (q : Option Member).
            IsEdit (f.before ++ m ∷ f.after) (remove_member content brace_open brace_close q m n))
          (sym f.is_previous)
          (subst
            (λ (q : Option Member).
              IsEdit (f.before ++ m ∷ f.after)
                (remove_member content brace_open brace_close (last_or none f.before) m q))
            (sym f.is_next) (remove_member-IsEdit f.before m f.after f.is_key ordered)))
  splice_at-IsEdit members (found p m n) (some new_value) indent e h =
      let f = locate-IsFound key none members p m n e in
      let ordered = subst (IsOrdered (brace_open + 1) brace_close) f.is_list h in
      subst (λ (ms : List Member). IsEdit ms (replaced content m.value_start m.value_end new_value))
        (sym f.is_list) (replace_member-IsEdit f.before m f.after new_value f.is_key ordered)

  -- Where the members stand in their order between the braces, each of the ways to rewrite one, put
  -- a value in, change it or take it out, replaces one range of the text between the braces, and no
  -- byte of another member's key or value is in that range.
  pub splice_top_level_key-IsEdit :
      (members : List Member) (new_value : Option Bytes) (indent : Bytes)
      → IsOrdered (brace_open + 1) brace_close members
      → IsEdit members
          (splice_top_level_key content brace_open brace_close members key new_value indent)
  unfolding splice_top_level_key
  splice_top_level_key-IsEdit members new_value indent h =
      splice_at-IsEdit members (locate key none members) new_value indent refl h
