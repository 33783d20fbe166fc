-- ===== src/Hooks/Merge/Laws/Uninstall.antt =====
-- internal/hooks/splice.go: the loop of an uninstall, alone and behind an install.
use mathlib.Core.Option.{some-injective}
use agentpulse_bridge.Base.{
  ◌≡◌, ap, sym, ◌∙◌, subst, inl, inr, ◌⊎◌, none, some, List, [], ◌∷◌, append-nil, String, str_eq,
  eq_iff, map, keep_if, Bool-cases, Option-cases, All,
}
use agentpulse_bridge.Base.Options.{bind_some}
use agentpulse_bridge.Base.Dict.{lookup}
use agentpulse_bridge.Hooks.Owner.{Owner}
use agentpulse_bridge.Hooks.Merge.{Json, Entry, OrderedRawObject, elements_of, merge_event}
use agentpulse_bridge.Hooks.Merge.Events.{
  merge_events, each_unwanted, install_events, uninstall_events,
}
use agentpulse_bridge.Hooks.Merge.Entries.{JsonLaws, entries_in_groups}
use agentpulse_bridge.Hooks.Merge.Compact.{is_foreign}
use agentpulse_bridge.Hooks.Merge.Laws.{entries_at, entries_in_elements, merge_event_lem}
use agentpulse_bridge.Hooks.Merge.Laws.Loops.{
  foreign_at, IsOwnEntry, same_entries, foreign_at-merge_event, foreign_at-merge_events,
  each_unwanted-OwnGroup, foreign_at-install_events,
}
use agentpulse_bridge.Hooks.Merge.Laws.Total.{IsArray, install_events_total, uninstall_events_total}

module _ (json : Json) (laws : JsonLaws json) (owner : Owner) where
  open laws use {compact}

  -- All that is left under an event is foreign.
  abbrev OnlyForeign : String → OrderedRawObject json → Type 0
  OnlyForeign key object =
      map compact (entries_at json key object) ≡ foreign_at json laws owner key object

  keeps_foreign_here :
      (event : String) (object merged : OrderedRawObject json)
      → merge_event json owner event [] object ≡ some merged
      → OnlyForeign event merged
  keeps_foreign_here event object merged h =
      (merge_event_lem json laws owner event [] object merged h).0
      ∙ append-nil (foreign_at json laws owner event object)
      ∙ sym (foreign_at-merge_event json laws owner event event [] object merged tt h)

  keeps_foreign_on :
      (event key : String) (object merged : OrderedRawObject json)
      → merge_event json owner event [] object ≡ some merged
      → OnlyForeign key object
      → OnlyForeign key merged
  keeps_foreign_on event key object merged h only = elim (Bool-cases (str_eq event key)) [
    | inl same ↦
        subst (λ (k : String). OnlyForeign k merged) ((eq_iff event key).0 same)
          (keeps_foreign_here event object merged h)
    | inr other ↦
        ap (map compact) (
          same_entries json laws owner key object merged
            ((merge_event_lem json laws owner event [] object merged h).1 key other))
        ∙ only
        ∙ sym (foreign_at-merge_event json laws owner event key [] object merged tt h)
  ]

  keeps_foreign_later :
      (key : String) (members object merged : OrderedRawObject json)
      → merge_events json owner (each_unwanted json owner members) object ≡ some merged
      → (OnlyForeign key object ⊎ ((raw : json.Raw) × (lookup key members ≡ some raw)))
      → OnlyForeign key merged
  unfolding merge_events lookup
  keeps_foreign_later key [] object merged h (inl only) =
      subst (OnlyForeign key) (some-injective _ _ h) only
  keeps_foreign_later key [] object merged h (inr (raw, found)) = cc
  keeps_foreign_later key ((event, v) ∷ members) object merged h (inl only) =
      let (next, first, rest) =
        bind_some (merge_event json owner event [] object)
          (merge_events json owner (each_unwanted json owner members)) h in
      keeps_foreign_later key members next merged rest
        (inl (keeps_foreign_on event key object next first only))
  keeps_foreign_later key ((event, v) ∷ members) object merged h (inr (raw, found)) =
      let (next, first, rest) =
        bind_some (merge_event json owner event [] object)
          (merge_events json owner (each_unwanted json owner members)) h in
      keeps_foreign_later key members next merged rest (elim (Bool-cases (str_eq event key)) [
        | inl same ↦ inl (
            subst (λ (k : String). OnlyForeign k next) ((eq_iff event key).0 same)
              (keeps_foreign_here event object next first))
        | inr other ↦ inr (raw, rw other at found)
      ])

  absent_is_foreign :
      (key : String) (object : OrderedRawObject json)
      → lookup key object ≡ none
      → OnlyForeign key object
  unfolding entries_at entries_in_groups
  absent_is_foreign key object h =
      let no_entries : entries_at json key object ≡ [] =
        ap (λ o. entries_in_elements json (elements_of json o)) h in
      ap (map compact) no_entries
      ∙ ap (λ rs. map compact (keep_if (is_foreign json laws owner) rs)) (sym no_entries)

  -- After an uninstall, each event's hook entries are those of before that are not the bridge's,
  -- in their order and but for white space as they were.
  pub uninstall_events_lem :
      (key : String) (object merged : OrderedRawObject json)
      → uninstall_events json owner object ≡ some merged
      → map compact (entries_at json key merged) ≡ foreign_at json laws owner key object
  unfolding uninstall_events
  uninstall_events_lem key object merged h =
      keeps_foreign_later key object object merged h (elim (Option-cases (lookup key object)) [
        | inl absent ↦ inl (absent_is_foreign key object absent)
        | inr (raw, found) ↦ inr (raw, found)
      ])
      ∙ foreign_at-merge_events json laws owner key (each_unwanted json owner object) object merged
          (each_unwanted-OwnGroup json laws owner object) h

  -- Where every event's value is an array, an install of entries of the bridge's own succeeds and so
  -- does the uninstall behind it, which leaves what an uninstall alone leaves: every event's hook
  -- entries that were not the bridge's before the install.
  pub uninstall-install :
      (entries : List Entry) (object : OrderedRawObject json)
      → All (IsOwnEntry json laws owner) entries
      → All (IsArray json) object
      → (installed : OrderedRawObject json) × (uninstalled : OrderedRawObject json)
        × (install_events json owner entries object ≡ some installed)
        × (uninstall_events json owner installed ≡ some uninstalled)
        × ((key : String)
            → map compact (entries_at json key uninstalled) ≡ foreign_at json laws owner key object)
  uninstall-install entries object own arrays =
      let (installed, put, installed_arrays) =
        install_events_total json laws owner entries object arrays in
      let (uninstalled, removed) =
        uninstall_events_total json laws owner installed installed_arrays in
      (
        installed,
        uninstalled,
        put,
        removed,
        λ key.
            uninstall_events_lem key installed uninstalled removed
            ∙ foreign_at-install_events json laws owner key entries object installed own put,
      )
