-- ===== src/Hooks/Merge/Entries.antt =====
-- internal/hooks: the hook entries of an event, whatever groups they stand in, and what is assumed of
-- encoding/json. Writing a value takes its insignificant white space away: `compact`.
use mathlib.Core.Option
use agentpulse_bridge.Base.{
  ℕ, ◌≡◌, Bool, true, ◌&&◌, ◌||◌, ltb, leb, Option, none, some, List, [], ◌∷◌, ◌++◌, String, map,
}
use agentpulse_bridge.Base.Text.{Text}
use agentpulse_bridge.Base.Dict.{lookup, insert}
use agentpulse_bridge.Hooks.Merge.{Json, OrderedRawObject, unmarshal_object}

abbrev pub map_values : {A B : Type 0} → (A → B) → List (String × A) → List (String × B)
map_values f [] = []
map_values f ((k, v) ∷ ms) = (k, f v) ∷ map_values f ms

-- A Unicode scalar value, which encoding/json writes and reads back.
abbrev pub is_scalar : ℕ → Bool
is_scalar c = ltb c 0xD800 || (leb 0xE000 c && ltb c 0x110000)

abbrev pub all_scalars : Text → Bool
all_scalars [] = true
all_scalars (c ∷ s) = is_scalar c && all_scalars s

module _ (json : Json) where
  abbrev pub entries_in_array : Option (List json.Raw) → List json.Raw
  entries_in_array none = []
  entries_in_array (some entries) = entries

  abbrev pub entries_in_hooks : Option json.Raw → List json.Raw
  entries_in_hooks none = []
  entries_in_hooks (some hooks_raw) = entries_in_array (json.array hooks_raw)

  abbrev pub entries_in_object : Option (OrderedRawObject json) → List json.Raw
  entries_in_object none = []
  entries_in_object (some group) = entries_in_hooks (lookup "hooks" group)

  unfoldable pub entries_in_group : json.Raw → List json.Raw
  unfolding lookup insert
  entries_in_group elem = entries_in_object (unmarshal_object json elem)

  unfoldable pub entries_in_groups : List json.Raw → List json.Raw
  unfolding entries_in_group
  entries_in_groups [] = []
  entries_in_groups (elem ∷ elements) = entries_in_group elem ++ entries_in_groups elements

  -- What json.Unmarshal and json.Encoder do with each other's values.
  pub record JsonLaws : Type 0 where
    pub compact : json.Raw → json.Raw
    pub matcher_value : String → json.Raw
    pub hook : Text → ℕ → json.Raw
    pub compact_twice : (r : json.Raw) → compact (compact r) ≡ compact r
    pub array_written : (rs : List json.Raw) → json.array (json.of_array rs) ≡ some (map compact rs)
    pub members_written :
        (ms : List (String × json.Raw))
        → json.members (json.of_members ms) ≡ some (map_values compact ms)
    pub array_compact :
        (r : json.Raw) → json.array (compact r) ≡ Option.map (map compact) (json.array r)
    pub members_compact :
        (r : json.Raw) → json.members (compact r) ≡ Option.map (map_values compact) (json.members r)
    pub command_compact : (r : json.Raw) → json.command_of (compact r) ≡ json.command_of r
    pub members_group :
        (matcher : String) (command : Text) (timeout : ℕ)
        → json.members (json.of_group matcher command timeout)
          ≡ some (
              ("matcher", matcher_value matcher)
              ∷ ("hooks", json.of_array (hook command timeout ∷ []))
              ∷ [])
    pub command_hook :
        (command : Text) (timeout : ℕ)
        → all_scalars command ≡ true
        → json.command_of (hook command timeout) ≡ some command
