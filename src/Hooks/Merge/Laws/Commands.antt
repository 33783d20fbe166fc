-- ===== src/Hooks/Merge/Laws/Commands.antt =====
-- internal/hooks/installed.go against hooks.go: which commands of its own the bridge finds under an event
-- that it has written.
use mathlib.Core.Option.{some-injective}
use agentpulse_bridge.Base.{
  ◌≡◌, refl, ap, sym, ◌∙◌, subst, inl, inr, Bool, true, false, Option, none, some, List, [], ◌∷◌,
  ◌++◌, String, if◌then◌else◌, map, keep_if, Bool-cases, All,
}
use agentpulse_bridge.Base.Text.{Text}
use agentpulse_bridge.Base.Dict.{lookup, lookup-insert, lookup-remove}
use agentpulse_bridge.Hooks.Owner.{Owner, owns}
use agentpulse_bridge.Hooks.Merge.{
  Json, Entry, OrderedRawObject, unmarshal_object, elements_of, set_event, kept_groups, new_groups,
  merge_elements, merge_event, is_ours, owns_command, owned_command, owned_in_entries,
  owned_in_array, owned_in_hooks, owned_in_object, owned_in_group, owned_in_groups,
  owned_in_elements, owned_commands_in_event,
}
use agentpulse_bridge.Hooks.Merge.Entries.{
  JsonLaws, entries_in_array, entries_in_hooks, entries_in_object, entries_in_group,
  entries_in_groups,
}
use agentpulse_bridge.Hooks.Merge.Compact.{is_foreign}
use agentpulse_bridge.Hooks.Merge.Laws.{
  entries_at, entries_in_elements, new_entries, merge_event_lem, by_same,
}
use agentpulse_bridge.Hooks.Merge.Laws.Loops.{IsOwnEntry}

abbrev pub commands : List Entry → List Text
commands [] = []
commands (e ∷ es) = e.command ∷ commands es

by_test : {A : Type 0} {b : Bool} {x : A} (y : A) → b ≡ true → (if b then x else y) ≡ x
by_test y h = rw h

module _ (json : Json) (owner : Owner) where
  owned_command-append :
      (c : Option Text) (xs ys : List Text)
      → owned_command json owner c (xs ++ ys) ≡ owned_command json owner c xs ++ ys
  owned_command-append none xs ys = refl
  owned_command-append (some c) xs ys = elim (Bool-cases (owns owner c)) [
    | inl e ↦ rw e
    | inr e ↦ rw e
  ]

  owned_in_entries-append :
      (rs ss : List json.Raw)
      → owned_in_entries json owner (rs ++ ss)
        ≡ owned_in_entries json owner rs ++ owned_in_entries json owner ss
  owned_in_entries-append [] ss = refl
  owned_in_entries-append (r ∷ rs) ss =
      ap (owned_command json owner (json.command_of r)) (owned_in_entries-append rs ss)
      ∙ owned_command-append (json.command_of r) (owned_in_entries json owner rs)
          (owned_in_entries json owner ss)

  owned_in_array-entries :
      (rs : Option (List json.Raw))
      → owned_in_array json owner rs ≡ owned_in_entries json owner (entries_in_array json rs)
  owned_in_array-entries none = refl
  owned_in_array-entries (some rs) = refl

  owned_in_hooks-entries :
      (raw : Option json.Raw)
      → owned_in_hooks json owner raw ≡ owned_in_entries json owner (entries_in_hooks json raw)
  owned_in_hooks-entries none = refl
  owned_in_hooks-entries (some raw) = owned_in_array-entries (json.array raw)

  owned_in_object-entries :
      (group : Option (OrderedRawObject json))
      → owned_in_object json owner group
        ≡ owned_in_entries json owner (entries_in_object json group)
  owned_in_object-entries none = refl
  owned_in_object-entries (some group) = owned_in_hooks-entries (lookup "hooks" group)

  owned_in_groups-entries :
      (elements : List json.Raw)
      → owned_in_groups json owner elements
        ≡ owned_in_entries json owner (entries_in_groups json elements)
  unfolding owned_in_groups entries_in_groups owned_in_group entries_in_group
  owned_in_groups-entries [] = refl
  owned_in_groups-entries (elem ∷ elements) =
      ap (◌++◌ (owned_in_object json owner (unmarshal_object json elem)))
        (owned_in_groups-entries elements)
      ∙ ap (λ cs. cs ++ owned_in_entries json owner (entries_in_groups json elements))
          (owned_in_object-entries (unmarshal_object json elem))
      ∙ sym (
          owned_in_entries-append (entries_in_object json (unmarshal_object json elem))
            (entries_in_groups json elements))

  -- `ownedCommandsInEvent` of the event's value, and nothing where there is none.
  abbrev pub owned_in_value : Option json.Raw → Option (List Text)
  owned_in_value none = some []
  owned_in_value (some raw) = owned_commands_in_event json owner raw

  abbrev pub owned_at : String → OrderedRawObject json → Option (List Text)
  owned_at event object = owned_in_value (lookup event object)

  owned_in_value-entries :
      (raw : Option json.Raw) (elements : List json.Raw)
      → elements_of json raw ≡ some elements
      → owned_in_value raw
        ≡ some (owned_in_entries json owner (entries_in_elements json (elements_of json raw)))
  unfolding owned_commands_in_event entries_in_groups
  owned_in_value-entries none elements h = refl
  owned_in_value-entries (some raw) elements h =
      ap (owned_in_elements json owner) h
      ∙ ap some (owned_in_groups-entries elements)
      ∙ ap (λ o. some (owned_in_entries json owner (entries_in_elements json o))) (sym h)

module _ (json : Json) (laws : JsonLaws json) (owner : Owner) where
  open laws use {compact, hook, array_written, command_compact, command_hook}

  owned_in_entries-compact :
      (rs : List json.Raw)
      → owned_in_entries json owner (map compact rs) ≡ owned_in_entries json owner rs
  owned_in_entries-compact [] = refl
  owned_in_entries-compact (r ∷ rs) =
      ap (owned_command json owner (json.command_of (compact r))) (owned_in_entries-compact rs)
      ∙ ap (λ c. owned_command json owner c (owned_in_entries json owner rs)) (command_compact r)

  foreign_command :
      (c : Option Text) (cs : List Text)
      → owns_command json owner c ≡ false
      → owned_command json owner c cs ≡ cs
  foreign_command none cs h = refl
  foreign_command (some c) cs h = rw h

  owned_in_foreign :
      (rs : List json.Raw)
      → owned_in_entries json owner (keep_if (is_foreign json laws owner) rs) ≡ []
  owned_in_foreign [] = refl
  owned_in_foreign (r ∷ rs) = elim (Bool-cases (is_ours json owner r)) [
    | inl ours ↦ rw ours (owned_in_foreign rs)
    | inr foreign ↦ rw foreign (
        foreign_command (json.command_of r)
          (owned_in_entries json owner (keep_if (is_foreign json laws owner) rs)) foreign
        ∙ owned_in_foreign rs)
  ]

  owned_in_new :
      (wanted : List Entry)
      → All (IsOwnEntry json laws owner) wanted
      → owned_in_entries json owner (new_entries json laws owner wanted) ≡ commands wanted
  owned_in_new [] h = refl
  owned_in_new (e ∷ es) ((own, written), h) =
      ap
        (λ c.
          owned_command json owner c (owned_in_entries json owner (new_entries json laws owner es)))
        (command_hook e.command e.timeout written)
      ∙ by_test (owned_in_entries json owner (new_entries json laws owner es)) own
      ∙ ap (◌∷◌ e.command) (owned_in_new es h)

  set_event_found :
      (event : String) (groups : List json.Raw) (object : OrderedRawObject json)
      → (elements : List json.Raw) × (elements_of json
            (lookup event (set_event json event groups object))
          ≡ some elements)
  set_event_found event [] object = (
    [],
    ap (elements_of json)
        (lookup-remove event event object ∙ by_same event none (lookup event object)),
  )
  set_event_found event (k ∷ ks) object = (
    map compact (k ∷ ks),
    ap (elements_of json) (
          lookup-insert event event (json.of_array (k ∷ ks)) object
          ∙ by_same event (some (json.of_array (k ∷ ks))) (lookup event object))
        ∙ array_written (k ∷ ks),
  )

  merged_found :
      (event : String) (wanted : List Entry) (object merged : OrderedRawObject json)
      (elements : Option (List json.Raw))
      → merge_elements json owner event wanted object elements ≡ some merged
      → (after : List json.Raw) × (elements_of json (lookup event merged) ≡ some after)
  merged_found event wanted object merged none h = cc
  merged_found event wanted object merged (some elements) h =
      subst
        (λ (o : OrderedRawObject json).
          (after : List json.Raw) × (elements_of json (lookup event o) ≡ some after))
        (some-injective _ _ h)
        (set_event_found event (kept_groups json owner elements ++ new_groups json wanted) object)

  -- Where `mergeEvent` succeeds with entries of the bridge's own, the inspection of that event then
  -- succeeds and finds the commands of those entries, in their order, and no other.
  pub owned_at-merge_event :
      (event : String) (wanted : List Entry) (object merged : OrderedRawObject json)
      → All (IsOwnEntry json laws owner) wanted
      → merge_event json owner event wanted object ≡ some merged
      → owned_at json owner event merged ≡ some (commands wanted)
  unfolding merge_event entries_at
  owned_at-merge_event event wanted object merged own h =
      let (after, found) =
        merged_found event wanted object merged (elements_of json (lookup event object)) h in
      let foreign = keep_if (is_foreign json laws owner) (entries_at json event object) in
      owned_in_value-entries json owner (lookup event merged) after found
      ∙ ap some (
          sym (owned_in_entries-compact (entries_at json event merged))
          ∙ ap (owned_in_entries json owner)
              (merge_event_lem json laws owner event wanted object merged h).0
          ∙ owned_in_entries-append json owner (map compact foreign)
              (map compact (new_entries json laws owner wanted))
          ∙ ap
              (λ cs.
                cs
                ++ owned_in_entries json owner (map compact (new_entries json laws owner wanted)))
              (owned_in_entries-compact foreign ∙ owned_in_foreign (entries_at json event object))
          ∙ owned_in_entries-compact (new_entries json laws owner wanted)
          ∙ owned_in_new wanted own)
