-- ===== src/Hooks/Owner/Laws.antt =====
-- internal/hooks/owner.go: what the bridge writes is its own, and what is its own.
use agentpulse_bridge.Base.{
  ℕ, ◌≡◌, refl, ap, ◌∙◌, inl, inr, true, false, List, [], ◌∷◌, ==_iff, Bool-cases,
}
use agentpulse_bridge.Base.Text.{Text, codes, same_text}
use agentpulse_bridge.Hooks.Words.{hook_command}
use agentpulse_bridge.Hooks.Words.Quoted.{split_command_words-hook_command}
use agentpulse_bridge.Hooks.Owner.{
  Owner, new_owner, owns, owns_words, names_bridge, drop_env_prefix, is_own_assignment,
}

same_text_refl : (s : Text) → same_text s s ≡ true
same_text_refl [] = refl
same_text_refl (c ∷ s) = rw ((==_iff c c).1 refl, same_text_refl s)

hook_is_no_assignment : is_own_assignment (codes "hook") ≡ false
unfolding is_own_assignment
hook_is_no_assignment = refl

-- A word with the subcommand behind it is no environment prefix.
drop_env_prefix-hook : (w : Text) → drop_env_prefix (w ∷ codes "hook" ∷ []) ≡ w ∷ codes "hook" ∷ []
unfolding drop_env_prefix
drop_env_prefix-hook w = elim (Bool-cases (same_text w (codes "env"))) [
  | inl e ↦ rw (e, hook_is_no_assignment)
  | inr e ↦ rw e
]

names_own_path : (c : ℕ) (s : Text) → names_bridge (new_owner (c ∷ s)) (c ∷ s) ≡ true
unfolding names_bridge
names_own_path c s = rw ((==_iff c c).1 refl, same_text_refl s)

-- Whatever the path, blanks, quotes and backslashes included, an owner owns the hook command that
-- the bridge writes for a binary at that path if and only if the path names the bridge to that
-- owner: it is the owner's own path and not empty, or the bare name, or an absolute path whose last
-- element is the name.
pub owns-hook_command :
    (owner : Owner) (path : Text) → owns owner (hook_command path) ≡ names_bridge owner path
unfolding owns
owns-hook_command owner path =
    ap (λ (words : List Text). owns_words owner (drop_env_prefix words))
      (split_command_words-hook_command path)
    ∙ ap (owns_words owner) (drop_env_prefix-hook path)

-- The owner of a binary at any path that is not empty owns the hook command written for that path.
pub own_command_owned : (c : ℕ) (s : Text) → owns (new_owner (c ∷ s)) (hook_command (c ∷ s)) ≡ true
own_command_owned c s = owns-hook_command (new_owner (c ∷ s)) (c ∷ s) ∙ names_own_path c s
