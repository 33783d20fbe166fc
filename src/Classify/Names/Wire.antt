-- ===== src/Classify/Names/Wire.antt =====
-- internal/classify/subagent.go and project.go: the two names that may leave the machine.
use agentpulse_bridge.Base.{
  ℕ, zero, suc, ◌≤◌, ◌<◌, ◌≡◌, ◌≢◌, ◌⊎◌, refl, inl, inr, Bool, true, false, ◌&&◌, ◌||◌, ◌==◌,
  ==_iff, [], ◌∷◌, arith, length, take, All, Bool-cases,
}
use agentpulse_bridge.Base.Text.{Text, codes, is_lower, is_upper, is_digit, trim_space}
use agentpulse_bridge.Classify.Names.{
  is_alnum, is_type_char, all_type_chars, checked_type, subagent_type, max_subagent_type_runes,
  fallback_subagent_type, fallback_project_name, has_separator, is_dot, checked_name, base,
  project_name, max_project_name_runes,
}

-- [A-Za-z0-9]
abbrev pub IsLetterOrDigit : ℕ → Type 0
IsLetterOrDigit c = (b'a' ≤ c) × (c ≤ b'z') ⊎ ((b'A' ≤ c) × (c ≤ b'Z') ⊎ (b'0' ≤ c) × (c ≤ b'9'))

-- [A-Za-z0-9._:-]
abbrev pub IsTypeChar : ℕ → Type 0
IsTypeChar c = IsLetterOrDigit c ⊎ ((c ≡ b'.') ⊎ ((c ≡ b'_') ⊎ ((c ≡ b':') ⊎ (c ≡ b'-'))))

-- ^[A-Za-z0-9][A-Za-z0-9._:-]{0,39}$
pub record IsWireType (t : Text) : Type 0 where
  pub first : ℕ
  pub others : Text
  pub whole : t ≡ first ∷ others
  pub starts : IsLetterOrDigit first
  pub goes_on : All IsTypeChar others
  pub short : length t ≤ 40

or-cases : (a b : Bool) → (a || b) ≡ true → (a ≡ true) ⊎ (b ≡ true)
or-cases true b h = inl refl
or-cases false b h = inr h

alnum-IsLetterOrDigit : (c : ℕ) → is_alnum c ≡ true → IsLetterOrDigit c
alnum-IsLetterOrDigit c h = elim (or-cases (is_lower c || is_upper c) (is_digit c) h) [
  | inr digit ↦ inr (inr (ground (arith, digit), ground (arith, digit)))
  | inl letter ↦ elim (or-cases (is_lower c) (is_upper c) letter) [
    | inl lower ↦ inl (ground (arith, lower), ground (arith, lower))
    | inr upper ↦ inr (inl (ground (arith, upper), ground (arith, upper)))
  ]
]

checked-IsTypeChar : (c : ℕ) → is_type_char c ≡ true → IsTypeChar c
checked-IsTypeChar c h =
    let alnum_dot = is_alnum c || c == b'.' in
    elim (or-cases (alnum_dot || c == b'_' || c == b':') (c == b'-') h) [
      | inr dash ↦ inr (inr (inr (inr ((==_iff c b'-').0 dash))))
      | inl h ↦ elim (or-cases (alnum_dot || c == b'_') (c == b':') h) [
        | inr colon ↦ inr (inr (inr (inl ((==_iff c b':').0 colon))))
        | inl h ↦ elim (or-cases alnum_dot (c == b'_') h) [
          | inr low_line ↦ inr (inr (inl ((==_iff c b'_').0 low_line)))
          | inl h ↦ elim (or-cases (is_alnum c) (c == b'.') h) [
            | inr dot ↦ inr (inl ((==_iff c b'.').0 dot))
            | inl alnum ↦ inl (alnum-IsLetterOrDigit c alnum)
          ]
        ]
      ]
    ]

checked-All : (t : Text) → all_type_chars t ≡ true → All IsTypeChar t
checked-All [] h = tt
checked-All (c ∷ s) h =
    (checked-IsTypeChar c (ground (arith, h)), checked-All s (ground (arith, h)))

-- At least one character, at most 64, and none of them a separator.
pub record IsWireName (t : Text) : Type 0 where
  pub some_text : 0 < length t
  pub short : length t ≤ 64
  pub no_path : All (λ c. (c ≢ b'/') × (c ≢ b'\\')) t

length-take-le : (n : ℕ) (t : Text) → length (take n t) ≤ n
length-take-le zero t = omega arith
length-take-le (suc n) [] = omega arith
length-take-le (suc n) (c ∷ s) = omega (arith, length-take-le n s)

has_separator-take : (n : ℕ) (t : Text) → has_separator t ≡ false → has_separator (take n t) ≡ false
has_separator-take zero t h = refl
has_separator-take (suc n) [] h = refl
has_separator-take (suc n) (c ∷ s) h = ground (arith, has_separator-take n s)

fallback-IsWireType : IsWireType fallback_subagent_type
fallback-IsWireType = record {
  first = _;
  others = _;
  whole = refl;
  starts = alnum-IsLetterOrDigit b's' refl;
  goes_on = checked-All (codes "ubagent") refl;
  short = omega arith;
}

checked_type-IsWireType : (t : Text) → length t ≤ 40 → IsWireType (checked_type t)
checked_type-IsWireType [] h = fallback-IsWireType
checked_type-IsWireType (c ∷ s) h = elim (Bool-cases (is_alnum c && all_type_chars s)) [
  | inl good ↦ rw good (record {
    first = c;
    others = s;
    whole = refl;
    starts = alnum-IsLetterOrDigit c (ground (arith, good));
    goes_on = checked-All s (ground (arith, good));
    short = h;
  })
  | inr bad ↦ rw bad fallback-IsWireType
]

-- Whatever agent_type a hook brings, `SubagentType` gives a text of the pattern that the wire allows:
-- a letter or digit of ASCII, then at most 39 of these or of `.`, `_`, `:` and `-`.
pub subagent_type-IsWireType : (agent_type : Text) → IsWireType (subagent_type agent_type)
unfolding subagent_type
subagent_type-IsWireType agent_type =
    checked_type-IsWireType (take max_subagent_type_runes (trim_space agent_type))
      (length-take-le max_subagent_type_runes (trim_space agent_type))

no_separator-All : (t : Text) → has_separator t ≡ false → All (λ c. (c ≢ b'/') × (c ≢ b'\\')) t
no_separator-All [] h = tt
no_separator-All (c ∷ s) h = (
  (
    λ e. (let h' = rw ((==_iff c b'/').1 e) at h in cc),
    λ e. ground (arith, h, (==_iff c b'\\').1 e),
  ),
  no_separator-All s (ground (arith, h)),
)

fallback-IsWireName : IsWireName fallback_project_name
fallback-IsWireName = record {
  some_text = omega arith;
  short = omega arith;
  no_path = no_separator-All fallback_project_name refl;
}

checked_name-IsWireName : (t : Text) → IsWireName (checked_name t)
checked_name-IsWireName [] = fallback-IsWireName
checked_name-IsWireName (c ∷ s) = elim (Bool-cases (is_dot (c ∷ s) || has_separator (c ∷ s))) [
  | inl bad ↦ rw bad fallback-IsWireName
  | inr good ↦ rw good (record {
    some_text = omega arith;
    short = length-take-le max_project_name_runes (c ∷ s);
    no_path =
        no_separator-All (take max_project_name_runes (c ∷ s))
          (has_separator-take max_project_name_runes (c ∷ s) (ground (arith, good)));
  })
]

-- Whatever the project's key, `projectName` gives a name of one to 64 characters with no separator.
pub project_name-IsWireName : (key : Text) → IsWireName (project_name key)
unfolding project_name
project_name-IsWireName key = checked_name-IsWireName (base key)
