-- ===== src/Hooks/Words/Quoted.antt =====
-- cmd/agentpulse/settings.go against internal/hooks/owner.go: a quoted path is read back as one word.
use agentpulse_bridge.Base.{
  ℕ, ◌≡◌, refl, ap, sym, ◌∙◌, inl, inr, false, none, some, [], ◌∷◌, ◌++◌, ◌==◌, ==_iff, arith, any,
  append_assoc, append-nil, Bool-cases,
}
use mathlib.Core.Bool.{false≢true}
use agentpulse_bridge.Base.Text.{Text, codes}
use agentpulse_bridge.Hooks.Words.{
  plain, quoted, backslash, single_quote, split_from, split_command_words, replace_quotes,
  shell_quote_single, is_special, hook_command,
}

module _ (w : Text) (c : ℕ) (s : Text) where
  quoted_end :
      split_from (quoted single_quote) (some w) (single_quote ∷ s) ≡ split_from plain (some w) s
  unfolding split_from
  quoted_end = refl

  quoted_char :
      (c == single_quote) ≡ false
      → split_from (quoted single_quote) (some w) (c ∷ s)
        ≡ split_from (quoted single_quote) (some (w ++ c ∷ [])) s
  unfolding split_from
  quoted_char h = rw h

  -- A closed quote, an escaped one and an opened one read as a quote.
  quoted_quote :
      split_from
        (quoted single_quote)
        (some w)
        (single_quote ∷ backslash ∷ single_quote ∷ single_quote ∷ s)
      ≡ split_from (quoted single_quote) (some (w ++ single_quote ∷ [])) s
  unfolding split_from
  quoted_quote = refl

  plain_char :
      is_special c ≡ false
      → split_from plain (some w) (c ∷ s) ≡ split_from plain (some (w ++ c ∷ [])) s
  unfolding split_from
  plain_char h = ground (arith, h)

-- Inside the quotes every character is read as it is.
split_from-replace_quotes :
    (w s rest : Text)
    → split_from (quoted single_quote) (some w) (replace_quotes s ++ single_quote ∷ rest)
      ≡ split_from plain (some (w ++ s)) rest
unfolding replace_quotes
split_from-replace_quotes w [] rest = rw append-nil (quoted_end w 0 rest)
split_from-replace_quotes w (c ∷ s) rest =
    let again : split_from (quoted single_quote) (some (w ++ c ∷ []))
          (replace_quotes s ++ single_quote ∷ rest)
        ≡ split_from plain (some (w ++ c ∷ s)) rest =
      split_from-replace_quotes (w ++ c ∷ []) s rest
      ∙ ap (λ (t : Text). split_from plain (some t) rest) (append_assoc w (c ∷ []) s) in
    elim (Bool-cases (c == single_quote)) [
      | inl same ↦
          let is_same : c ≡ single_quote = (==_iff c single_quote).0 same in
          rw same (
            quoted_quote w 0 (replace_quotes s ++ single_quote ∷ rest)
            ∙ ap
                (λ (d : ℕ).
                  split_from (quoted single_quote) (some (w ++ d ∷ []))
                    (replace_quotes s ++ single_quote ∷ rest))
                (sym is_same)
            ∙ again)
      | inr other ↦ rw other (quoted_char w c _ other ∙ again)
    ]

split_from-plain :
    (w s rest : Text)
    → any is_special s ≡ false
    → split_from plain (some w) (s ++ rest) ≡ split_from plain (some (w ++ s)) rest
split_from-plain w [] rest h = rw append-nil
split_from-plain w (c ∷ s) rest h = elim (Bool-cases (is_special c)) [
  | inl special ↦ absurd (false≢true (sym h ∙ rw special))
  | inr ordinary ↦
      plain_char w c (s ++ rest) ordinary
      ∙ split_from-plain (w ++ c ∷ []) s rest (rw ordinary at h)
      ∙ ap (λ (t : Text). split_from plain (some t) rest) (append_assoc w (c ∷ []) s)
]

plain_start :
    (c : ℕ) (s : Text)
    → is_special c ≡ false
    → split_from plain none (c ∷ s) ≡ split_from plain (some (c ∷ [])) s
unfolding split_from
plain_start c s h = ground (arith, h)

quoted_start :
    (s : Text)
    → split_from plain none (single_quote ∷ s) ≡ split_from (quoted single_quote) (some []) s
unfolding split_from
quoted_start s = refl

-- What follows the path is read behind it as a word of its own.
split_from-hook : (w : Text) → split_from plain (some w) (codes " hook") ≡ w ∷ codes "hook" ∷ []
unfolding split_from
split_from-hook w = refl

quoted_words :
    (binary : Text)
    → split_command_words (shell_quote_single binary ++ codes " hook") ≡ binary ∷ codes "hook" ∷ []
unfolding split_command_words shell_quote_single
quoted_words binary =
    quoted_start ((replace_quotes binary ++ single_quote ∷ []) ++ codes " hook")
    ∙ ap (split_from (quoted single_quote) (some []))
        (append_assoc (replace_quotes binary) (single_quote ∷ []) (codes " hook"))
    ∙ split_from-replace_quotes [] binary (codes " hook")
    ∙ split_from-hook binary

plain_words :
    (c : ℕ) (s : Text)
    → any is_special (c ∷ s) ≡ false
    → split_command_words ((c ∷ s) ++ codes " hook") ≡ (c ∷ s) ∷ codes "hook" ∷ []
unfolding split_command_words
plain_words c s h = elim (Bool-cases (is_special c)) [
  | inl special ↦ absurd (false≢true (sym h ∙ rw special))
  | inr ordinary ↦
      plain_start c (s ++ codes " hook") ordinary
      ∙ split_from-plain (c ∷ []) s (codes " hook") (rw ordinary at h)
      ∙ split_from-hook (c ∷ s)
]

-- The command that the bridge writes for any path of its binary, blanks, quotes and backslashes
-- included, is split into that path and the word `hook`.
pub split_command_words-hook_command :
    (binary : Text) → split_command_words (hook_command binary) ≡ binary ∷ codes "hook" ∷ []
unfolding hook_command
split_command_words-hook_command [] = quoted_words []
split_command_words-hook_command (c ∷ s) = elim (Bool-cases (any is_special (c ∷ s))) [
  | inl special ↦ rw special (quoted_words (c ∷ s))
  | inr ordinary ↦ rw ordinary (plain_words c s ordinary)
]
