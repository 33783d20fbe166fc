-- ===== src/Hooks/Owner.antt =====
-- internal/hooks/owner.go: which commands are the bridge's own. A text is a list of code points.
pub mod Laws
use agentpulse_bridge.Base.{
  Bool, true, false, ◌&&◌, ◌||◌, List, [], ◌∷◌, ◌==◌, if◌then◌else◌, any, not,
}
use agentpulse_bridge.Base.Text.{Text, codes, starts_with, same_text, before_char}
use agentpulse_bridge.Classify.Names.{base}
use agentpulse_bridge.Hooks.Words.{is_empty, split_command_words}

abbrev pub binary_name : Text
binary_name = codes "agentpulse"

pub record Owner : Type 0 where
  pub binary_path : Text

abbrev pub new_owner : Text → Owner
new_owner path = record { binary_path = path }

-- `strings.Cut` at "=", with a name that starts with the bridge's prefix.
unfoldable pub is_own_assignment : Text → Bool
is_own_assignment word =
    any (λ c. c == b'=') word && starts_with (codes "AGENTPULSE_") (before_char b'=' word)

abbrev pub drop_assignments : List Text → List Text
drop_assignments [] = []
drop_assignments (w ∷ ws) =
    let rest = drop_assignments ws in if is_own_assignment w then rest else w ∷ ws

unfoldable pub drop_env_prefix : List Text → List Text
drop_env_prefix [] = []
drop_env_prefix (w ∷ []) = w ∷ []
drop_env_prefix (w ∷ v ∷ ws) =
    if same_text w (codes "env") && is_own_assignment v then drop_assignments ws else w ∷ v ∷ ws

-- `filepath.IsAbs`
abbrev pub is_abs : Text → Bool
is_abs path = starts_with (codes "/") path

module _ (owner : Owner) where
  unfoldable pub names_bridge : Text → Bool
  unfolding base
  names_bridge first =
      (not (is_empty owner.binary_path) && same_text first owner.binary_path)
      || same_text first binary_name
      || (is_abs first && same_text (base first) binary_name)

  abbrev pub owns_words : List Text → Bool
  owns_words [] = false
  owns_words (w ∷ []) = false
  owns_words (w ∷ v ∷ ws) = same_text v (codes "hook") && names_bridge w

  unfoldable pub owns : Text → Bool
  unfolding split_command_words drop_env_prefix names_bridge
  owns command = owns_words (drop_env_prefix (split_command_words command))
