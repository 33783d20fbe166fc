-- ===== src/Hooks/Merge/Laws/Total.antt =====
-- internal/hooks/splice.go: the loops succeed where every event's value is an array.
use agentpulse_bridge.Base.{
  ◌≡◌, refl, ap, ◌∙◌, inl, inr, some, List, [], ◌∷◌, ◌++◌, String, str_eq, map, Bool-cases, All,
}
use agentpulse_bridge.Base.Options.{◌>>=◌}
use agentpulse_bridge.Base.Dict.{Dict, lookup, insert, remove}
use agentpulse_bridge.Hooks.Owner.{Owner}
use agentpulse_bridge.Hooks.Merge.{
  Json, Entry, OrderedRawObject, elements_of, set_event, kept_groups, new_groups, merge_elements,
  merge_event,
}
use agentpulse_bridge.Hooks.Merge.Events.{
  by_event, merge_events, each_unwanted, install_events, uninstall_events,
}
use agentpulse_bridge.Hooks.Merge.Entries.{JsonLaws}

module _ (json : Json) where
  abbrev pub IsArray : String × json.Raw → Type 0
  IsArray member = (elements : List json.Raw) × (json.array member.1 ≡ some elements)

module _ {V : Type 0} (P : String × V → Type 0) where
  insert-All :
      (k : String) (v : V) (m : Dict V) → ((j : String) → P (j, v)) → All P m → All P (insert k v m)
  unfolding insert
  insert-All k v [] new h = (new k, tt)
  insert-All k v ((j, w) ∷ m) new h = elim (Bool-cases (str_eq j k)) [
    | inl same ↦ rw same (new j, h.1)
    | inr other ↦ rw other (h.0, insert-All k v m new h.1)
  ]

  remove-All : (k : String) (m : Dict V) → All P m → All P (remove k m)
  unfolding remove
  remove-All k [] h = tt
  remove-All k ((j, w) ∷ m) h = elim (Bool-cases (str_eq j k)) [
    | inl same ↦ rw same (remove-All k m h.1)
    | inr other ↦ rw other (h.0, remove-All k m h.1)
  ]

module _ (json : Json) (laws : JsonLaws json) (owner : Owner) where
  open laws use {compact, array_written}

  elements_found :
      (key : String) (object : OrderedRawObject json)
      → All (IsArray json) object
      → (elements : List json.Raw) × (elements_of json (lookup key object) ≡ some elements)
  unfolding lookup
  elements_found key [] h = ([], refl)
  elements_found key ((j, raw) ∷ object) h = elim (Bool-cases (str_eq j key)) [
    | inl same ↦ let (elements, found) = h.0 in (elements, rw same found)
    | inr other ↦
        let (elements, found) = elements_found key object h.1 in (elements, rw other found)
  ]

  set_event-IsArray :
      (event : String) (groups : List json.Raw) (object : OrderedRawObject json)
      → All (IsArray json) object
      → All (IsArray json) (set_event json event groups object)
  set_event-IsArray event [] object h = remove-All (IsArray json) event object h
  set_event-IsArray event (k ∷ ks) object h =
      insert-All (IsArray json) event (json.of_array (k ∷ ks)) object
        (λ j. (map compact (k ∷ ks), array_written (k ∷ ks))) h

  merge_event_total :
      (event : String) (wanted : List Entry) (object : OrderedRawObject json)
      → All (IsArray json) object
      → (merged : OrderedRawObject json) × (merge_event json owner event wanted object
          ≡ some merged)
        × All (IsArray json) merged
  unfolding merge_event
  merge_event_total event wanted object h =
      let (elements, found) = elements_found event object h in
      let groups = kept_groups json owner elements ++ new_groups json wanted in
      (
        set_event json event groups object,
        ap (merge_elements json owner event wanted object) found,
        set_event-IsArray event groups object h,
      )

  merge_events_total :
      (groups : Dict (List Entry)) (object : OrderedRawObject json)
      → All (IsArray json) object
      → (merged : OrderedRawObject json) × (merge_events json owner groups object ≡ some merged)
        × All (IsArray json) merged
  unfolding merge_events
  merge_events_total [] object h = (object, refl, h)
  merge_events_total ((event, wanted) ∷ groups) object h =
      let (next, first, next_arrays) = merge_event_total event wanted object h in
      let (merged, rest, arrays) = merge_events_total groups next next_arrays in
      (merged, ap (λ o. o >>= merge_events json owner groups) first ∙ rest, arrays)

  pub install_events_total :
      (entries : List Entry) (object : OrderedRawObject json)
      → All (IsArray json) object
      → (merged : OrderedRawObject json) × (install_events json owner entries object ≡ some merged)
        × All (IsArray json) merged
  unfolding install_events
  install_events_total entries object h = merge_events_total (by_event entries []) object h

  pub uninstall_events_total :
      (object : OrderedRawObject json)
      → All (IsArray json) object
      → (merged : OrderedRawObject json) × (uninstall_events json owner object ≡ some merged)
  unfolding uninstall_events
  uninstall_events_total object h =
      let (merged, done, arrays) = merge_events_total (each_unwanted json owner object) object h in
      (merged, done)
