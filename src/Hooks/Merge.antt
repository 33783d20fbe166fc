-- ===== src/Hooks/Merge.antt =====
-- internal/hooks/hooks.go: `mergeEvent` and `filterOwnedHooks`, ordered.go, the loops of splice.go and
-- the reading of installed.go. encoding/json is a parameter: `Raw` is a valid JSON value's text, as
-- json.RawMessage carries it, so that writing a value cannot fail.
pub mod Events
pub mod Entries
pub mod Objects
pub mod Compact
pub mod Groups
pub mod Laws
use agentpulse_bridge.Base.{
  ℕ, ◌≡◌, Bool, true, false, Option, none, some, List, [], ◌∷◌, ◌++◌, String, if◌then◌else◌, map,
}
use agentpulse_bridge.Base.Text.{Text}
use agentpulse_bridge.Base.Dict.{Dict, lookup, insert, remove}
use agentpulse_bridge.Hooks.Owner.{Owner, owns}

-- `json.Unmarshal` into a list of values, into an object's members one by one, and into a struct
-- with a command; `marshalNoEscape` of a list, of an object's members and of a new hook group.
pub record Json : Type 1 where
  pub Raw : Type 0
  pub array : Raw → Option (List Raw)
  pub members : Raw → Option (List (String × Raw))
  pub command_of : Raw → Option Text
  pub of_array : List Raw → Raw
  pub of_members : List (String × Raw) → Raw
  pub of_group : String → Text → ℕ → Raw

pub record Entry : Type 0 where
  pub event : String
  pub matcher : String
  pub command : Text
  pub timeout : ℕ

-- What `filterOwnedHooks` returns: its error, nothing of ours, a group of ours alone, and the group
-- that is left.
pub data Filtered (A : Type 0) : Type 0 where
  not_a_group nothing_ours dropped_whole_group : Filtered A
  filtered : A → Filtered A

module _ (json : Json) where
  -- `orderedRawObject`: the values under their keys in the order of the keys.
  abbrev pub OrderedRawObject : Type 0
  OrderedRawObject = Dict json.Raw

  abbrev pub set_all : List (String × json.Raw) → OrderedRawObject → OrderedRawObject
  set_all [] object = object
  set_all ((key, value) ∷ ms) object = set_all ms (insert key value object)

  -- `UnmarshalJSON`
  abbrev pub object_of : Option (List (String × json.Raw)) → Option OrderedRawObject
  object_of none = none
  object_of (some ms) = some (set_all ms [])

  abbrev pub unmarshal_object : json.Raw → Option OrderedRawObject
  unmarshal_object raw = object_of (json.members raw)

  unfoldable pub new_groups : List Entry → List json.Raw
  new_groups [] = []
  new_groups (e ∷ es) = json.of_group e.matcher e.command e.timeout ∷ new_groups es

  -- `json.Unmarshal` of the event's value, if the event is there.
  abbrev pub elements_of : Option json.Raw → Option (List json.Raw)
  elements_of none = some []
  elements_of (some raw) = json.array raw

  abbrev pub set_event : String → List json.Raw → OrderedRawObject → OrderedRawObject
  set_event event [] object = remove event object
  set_event event (k ∷ ks) object = insert event (json.of_array (k ∷ ks)) object

  module _ (owner : Owner) where
    abbrev pub owns_command : Option Text → Bool
    owns_command none = false
    owns_command (some command) = owns owner command

    abbrev pub is_ours : json.Raw → Bool
    is_ours entry = owns_command (json.command_of entry)

    -- The entries kept, and `droppedAny`.
    unfoldable pub split_entries : List json.Raw → List json.Raw × Bool
    split_entries [] = ([], false)
    split_entries (entry ∷ entries) =
        let (kept, dropped_any) = split_entries entries in
        if is_ours entry then (kept, true) else (entry ∷ kept, dropped_any)

    abbrev pub filter_group : OrderedRawObject → List json.Raw × Bool → Filtered json.Raw
    filter_group group (kept, false) = nothing_ours
    filter_group group ([], true) = dropped_whole_group
    filter_group group (k ∷ ks, true) =
        filtered (json.of_members (insert "hooks" (json.of_array (k ∷ ks)) group))

    abbrev pub filter_entries : OrderedRawObject → Option (List json.Raw) → Filtered json.Raw
    filter_entries group none = not_a_group
    filter_entries group (some entries) = filter_group group (split_entries entries)

    abbrev pub filter_hooks : OrderedRawObject → Option json.Raw → Filtered json.Raw
    filter_hooks group none = nothing_ours
    filter_hooks group (some hooks_raw) = filter_entries group (json.array hooks_raw)

    abbrev pub filter_object : Option OrderedRawObject → Filtered json.Raw
    filter_object none = not_a_group
    filter_object (some group) = filter_hooks group (lookup "hooks" group)

    unfoldable pub filter_owned_hooks : json.Raw → Filtered json.Raw
    unfolding lookup insert split_entries
    filter_owned_hooks elem = filter_object (unmarshal_object elem)

    -- The loop of `mergeEvent` over the groups.
    abbrev pub kept_group : json.Raw → Filtered json.Raw → List json.Raw → List json.Raw
    kept_group elem not_a_group kept = elem ∷ kept
    kept_group elem nothing_ours kept = elem ∷ kept
    kept_group elem dropped_whole_group kept = kept
    kept_group elem (filtered group) kept = group ∷ kept

    unfoldable pub kept_groups : List json.Raw → List json.Raw
    unfolding filter_owned_hooks
    kept_groups [] = []
    kept_groups (elem ∷ elements) = kept_group elem (filter_owned_hooks elem) (kept_groups elements)

    abbrev pub merge_elements :
        String → List Entry → OrderedRawObject → Option (List json.Raw) → Option OrderedRawObject
    merge_elements event wanted object none = none
    merge_elements event wanted object (some elements) =
        some (set_event event (kept_groups elements ++ new_groups wanted) object)

    unfoldable pub merge_event : String → List Entry → OrderedRawObject → Option OrderedRawObject
    unfolding lookup insert remove kept_groups new_groups
    merge_event event wanted object =
        merge_elements event wanted object (elements_of (lookup event object))

    -- `ownedCommandsInEvent`
    abbrev pub owned_command : Option Text → List Text → List Text
    owned_command none commands = commands
    owned_command (some command) commands =
        if owns owner command then command ∷ commands else commands

    abbrev pub owned_in_entries : List json.Raw → List Text
    owned_in_entries [] = []
    owned_in_entries (entry ∷ entries) =
        owned_command (json.command_of entry) (owned_in_entries entries)

    abbrev pub owned_in_array : Option (List json.Raw) → List Text
    owned_in_array none = []
    owned_in_array (some entries) = owned_in_entries entries

    abbrev pub owned_in_hooks : Option json.Raw → List Text
    owned_in_hooks none = []
    owned_in_hooks (some hooks_raw) = owned_in_array (json.array hooks_raw)

    abbrev pub owned_in_object : Option OrderedRawObject → List Text
    owned_in_object none = []
    owned_in_object (some group) = owned_in_hooks (lookup "hooks" group)

    unfoldable pub owned_in_group : json.Raw → List Text
    unfolding lookup
    owned_in_group elem = owned_in_object (unmarshal_object elem)

    unfoldable pub owned_in_groups : List json.Raw → List Text
    unfolding owned_in_group
    owned_in_groups [] = []
    owned_in_groups (elem ∷ elements) = owned_in_group elem ++ owned_in_groups elements

    abbrev pub owned_in_elements : Option (List json.Raw) → Option (List Text)
    owned_in_elements none = none
    owned_in_elements (some elements) = some (owned_in_groups elements)

    unfoldable pub owned_commands_in_event : json.Raw → Option (List Text)
    unfolding owned_in_groups
    owned_commands_in_event raw = owned_in_elements (json.array raw)
