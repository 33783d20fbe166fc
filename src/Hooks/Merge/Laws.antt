-- ===== src/Hooks/Merge/Laws.antt =====
-- internal/hooks/hooks.go: `mergeEvent` on the hook entries of its event and of the others.
pub mod Loops
pub mod Total
pub mod Uninstall
pub mod Commands
use mathlib.Core.Option.{some-injective}
use agentpulse_bridge.Base.{
  ℕ, ◌≡◌, refl, ap, sym, ◌∙◌, inl, inr, Bool, true, false, not, Option, none, some, List, [], ◌∷◌,
  ◌++◌, String, str_eq, eq_iff, if◌then◌else◌, map, keep_if, Bool-cases, arith,
}
use agentpulse_bridge.Base.Dict.{Dict, lookup, insert, remove, lookup-insert, lookup-remove}
use agentpulse_bridge.Hooks.Owner.{Owner, owns}
use agentpulse_bridge.Hooks.Merge.{
  Json, Entry, OrderedRawObject, kept_group, kept_groups, filter_owned_hooks, new_groups,
  elements_of, set_event, merge_elements, merge_event, object_of,
}
use agentpulse_bridge.Hooks.Merge.Entries.{
  JsonLaws, entries_in_array, entries_in_hooks, entries_in_object, entries_in_group,
  entries_in_groups,
}
use agentpulse_bridge.Hooks.Merge.Compact.{
  is_foreign, map-append, map-compact_twice, entries_in_groups-append, entries_in_groups-compact,
}
use agentpulse_bridge.Hooks.Merge.Groups.{kept_group_lem}

keep_if-append :
    {A : Type 0} (p : A → Bool) (xs ys : List A)
    → keep_if p (xs ++ ys) ≡ keep_if p xs ++ keep_if p ys
keep_if-append p [] ys = refl
keep_if-append p (x ∷ xs) ys = elim (Bool-cases (p x)) [
  | inl e ↦ rw e (ap (◌∷◌ x) (keep_if-append p xs ys))
  | inr e ↦ rw e (keep_if-append p xs ys)
]

pub by_same : {A : Type 0} (k : String) (x y : A) → (if str_eq k k then x else y) ≡ x
by_same k x y = rw ((eq_iff k k).1 refl)

module _ (json : Json) where
  abbrev pub entries_in_elements : Option (List json.Raw) → List json.Raw
  entries_in_elements none = []
  entries_in_elements (some elements) = entries_in_groups json elements

  -- The hook entries under an event, in the order of the file.
  unfoldable pub entries_at : String → OrderedRawObject json → List json.Raw
  unfolding lookup
  entries_at event object = entries_in_elements (elements_of json (lookup event object))

  module _ (laws : JsonLaws json) (owner : Owner) where
    open laws use {compact, hook, array_written, members_group}

    abbrev pub new_entries : List Entry → List json.Raw
    new_entries [] = []
    new_entries (e ∷ es) = hook e.command e.timeout ∷ new_entries es

    kept_groups_lem :
        (elements : List json.Raw)
        → map compact (entries_in_groups json (kept_groups json owner elements))
          ≡ map compact (keep_if (is_foreign json laws owner) (entries_in_groups json elements))
    unfolding kept_groups entries_in_groups
    kept_groups_lem [] = refl
    kept_groups_lem (elem ∷ elements) =
        kept_group_lem json laws owner elem (kept_groups json owner elements)
        ∙ ap
            (◌++◌ (map compact (keep_if (is_foreign json laws owner) (entries_in_group json elem))))
            (kept_groups_lem elements)
        ∙ sym (
            map-append compact (keep_if (is_foreign json laws owner) (entries_in_group json elem))
              (keep_if (is_foreign json laws owner) (entries_in_groups json elements)))
        ∙ ap (map compact) (
            sym (
              keep_if-append (is_foreign json laws owner) (entries_in_group json elem)
                (entries_in_groups json elements)))

    entries_in_new_group :
        (matcher : String) (e : Entry)
        → entries_in_group json (json.of_group matcher e.command e.timeout)
          ≡ compact (hook e.command e.timeout) ∷ []
    unfolding entries_in_group
    entries_in_new_group matcher e =
        ap (λ o. entries_in_object json (object_of json o))
          (members_group matcher e.command e.timeout)
        ∙ ap (entries_in_array json) (array_written (hook e.command e.timeout ∷ []))

    entries_in_new_groups :
        (wanted : List Entry)
        → entries_in_groups json (new_groups json wanted) ≡ map compact (new_entries wanted)
    unfolding new_groups entries_in_groups
    entries_in_new_groups [] = refl
    entries_in_new_groups (e ∷ es) =
        ap (λ r. r ++ entries_in_groups json (new_groups json es))
          (entries_in_new_group e.matcher e)
        ∙ ap (◌∷◌ (compact (hook e.command e.timeout))) (entries_in_new_groups es)

    entries_at-set_event :
        (event : String) (groups : List json.Raw) (object : OrderedRawObject json)
        → map compact (entries_at event (set_event json event groups object))
          ≡ map compact (entries_in_groups json groups)
    unfolding entries_at entries_in_groups
    entries_at-set_event event [] object =
        ap (λ o. map compact (entries_in_elements (elements_of json o)))
          (lookup-remove event event object ∙ by_same event none (lookup event object))
    entries_at-set_event event (k ∷ ks) object =
        ap (λ o. map compact (entries_in_elements (elements_of json o)))
          (lookup-insert event event (json.of_array (k ∷ ks)) object
            ∙ by_same event (some (json.of_array (k ∷ ks))) (lookup event object))
        ∙ ap (λ o. map compact (entries_in_elements o)) (array_written (k ∷ ks))
        ∙ ap (map compact) (entries_in_groups-compact json laws (k ∷ ks))
        ∙ map-compact_twice json laws (entries_in_groups json (k ∷ ks))

    lookup-set_event :
        (event key : String) (groups : List json.Raw) (object : OrderedRawObject json)
        → str_eq event key ≡ false
        → lookup key (set_event json event groups object) ≡ lookup key object
    lookup-set_event event key [] object h = lookup-remove event key object ∙ rw h
    lookup-set_event event key (k ∷ ks) object h =
        lookup-insert event key (json.of_array (k ∷ ks)) object ∙ rw h

    merge_elements_lem :
        (event : String) (wanted : List Entry) (object : OrderedRawObject json)
        (elements : Option (List json.Raw)) (merged : OrderedRawObject json)
        → merge_elements json owner event wanted object elements ≡ some merged
        → (map compact (entries_at event merged)
            ≡ map compact (keep_if (is_foreign json laws owner) (entries_in_elements elements))
              ++ map compact (new_entries wanted))
          × ((key : String) → str_eq event key ≡ false → lookup key merged ≡ lookup key object)
    merge_elements_lem event wanted object none merged h = cc
    merge_elements_lem event wanted object (some elements) merged h =
        let groups = kept_groups json owner elements ++ new_groups json wanted in
        let is_merged : set_event json event groups object ≡ merged = some-injective _ _ h in
        (
          ap (λ o. map compact (entries_at event o)) (sym is_merged)
              ∙ entries_at-set_event event groups object
              ∙ ap (map compact) (
                  entries_in_groups-append json laws (kept_groups json owner elements)
                    (new_groups json wanted))
              ∙ map-append compact (entries_in_groups json (kept_groups json owner elements))
                  (entries_in_groups json (new_groups json wanted))
              ∙ ap (λ es. es ++ map compact (entries_in_groups json (new_groups json wanted)))
                  (kept_groups_lem elements)
              ∙ ap
                  (λ es.
                    map compact
                      (keep_if (is_foreign json laws owner) (entries_in_groups json elements))
                    ++ map compact es)
                  (entries_in_new_groups wanted)
              ∙ ap
                  (◌++◌ (
                    map compact
                      (keep_if (is_foreign json laws owner) (entries_in_groups json elements))))
                  (map-compact_twice json laws (new_entries wanted)),
          λ key other.
              ap (lookup key) (sym is_merged) ∙ lookup-set_event event key groups object other,
        )

    -- Where `mergeEvent` succeeds, the event's hook entries are those that were not the bridge's, in
    -- their order and but for white space as they were, and behind them one for each entry wanted;
    -- the values of all other events are the same.
    pub merge_event_lem :
        (event : String) (wanted : List Entry) (object merged : OrderedRawObject json)
        → merge_event json owner event wanted object ≡ some merged
        → (map compact (entries_at event merged)
            ≡ map compact (keep_if (is_foreign json laws owner) (entries_at event object))
              ++ map compact (new_entries wanted))
          × ((key : String) → str_eq event key ≡ false → lookup key merged ≡ lookup key object)
    unfolding merge_event entries_at
    merge_event_lem event wanted object merged h =
        merge_elements_lem event wanted object (elements_of json (lookup event object)) merged h
