-- ===== src/Hooks/Merge/Laws/Loops.antt =====
-- internal/hooks/splice.go: the loops of an install and of an uninstall over the events.
use mathlib.Core.Option.{some-injective}
use agentpulse_bridge.Base.{
  ◌≡◌, refl, ap, sym, ◌∙◌, inl, inr, true, Option, none, some, List, [], ◌∷◌, ◌++◌, String, str_eq,
  eq_iff, map, keep_if, Bool-cases, All, All-append, append-nil, subst,
}
use agentpulse_bridge.Base.Options.{bind_some}
use agentpulse_bridge.Base.Dict.{Dict, lookup, insert}
use agentpulse_bridge.Hooks.Owner.{Owner, owns}
use agentpulse_bridge.Hooks.Merge.{
  Json, Entry, OrderedRawObject, elements_of, merge_event, owns_command, is_ours,
}
use agentpulse_bridge.Hooks.Merge.Events.{
  append_entry, by_event, merge_events, each_unwanted, install_events,
}
use agentpulse_bridge.Hooks.Merge.Entries.{JsonLaws, all_scalars}
use agentpulse_bridge.Hooks.Merge.Compact.{is_foreign, keep_foreign-compact}
use agentpulse_bridge.Hooks.Merge.Laws.{
  entries_at, entries_in_elements, new_entries, merge_event_lem, keep_if-append,
}

module _ (json : Json) (laws : JsonLaws json) (owner : Owner) where
  open laws use {compact, hook, command_hook}

  -- The hook entries under an event that are not the bridge's, but for white space.
  abbrev pub foreign_at : String → OrderedRawObject json → List json.Raw
  foreign_at event object =
      map compact (keep_if (is_foreign json laws owner) (entries_at json event object))

  -- A command that the owner owns and that can be written as JSON.
  abbrev pub IsOwnEntry : Entry → Type 0
  IsOwnEntry e = (owns owner e.command ≡ true) × (all_scalars e.command ≡ true)

  pub keep_if-twice :
      (rs : List json.Raw)
      → keep_if (is_foreign json laws owner) (keep_if (is_foreign json laws owner) rs)
        ≡ keep_if (is_foreign json laws owner) rs
  keep_if-twice [] = refl
  keep_if-twice (r ∷ rs) = elim (Bool-cases (is_ours json owner r)) [
    | inl ours ↦ rw ours (keep_if-twice rs)
    | inr foreign ↦ rw foreign (rw foreign (ap (◌∷◌ r) (keep_if-twice rs)))
  ]

  own_entry : (e : Entry) → IsOwnEntry e → is_ours json owner (hook e.command e.timeout) ≡ true
  own_entry e h = ap (owns_command json owner) (command_hook e.command e.timeout h.1) ∙ h.0

  no_foreign_entry :
      (wanted : List Entry)
      → All IsOwnEntry wanted
      → keep_if (is_foreign json laws owner) (new_entries json laws owner wanted) ≡ []
  no_foreign_entry [] h = refl
  no_foreign_entry (e ∷ es) h = rw (own_entry e h.0) (no_foreign_entry es h.1)

  foreign_after :
      (kept : List json.Raw) (wanted : List Entry) (written : List json.Raw)
      → All IsOwnEntry wanted
      → map compact written
        ≡ map compact (keep_if (is_foreign json laws owner) kept)
          ++ map compact (new_entries json laws owner wanted)
      → map compact (keep_if (is_foreign json laws owner) written)
        ≡ map compact (keep_if (is_foreign json laws owner) kept)
  foreign_after kept wanted written own h =
      let foreign : List json.Raw = keep_if (is_foreign json laws owner) kept in
      let new : List json.Raw = new_entries json laws owner wanted in
      sym (keep_foreign-compact json laws owner written)
      ∙ ap (keep_if (is_foreign json laws owner)) h
      ∙ keep_if-append (is_foreign json laws owner) (map compact foreign) (map compact new)
      ∙ ap (λ rs. rs ++ keep_if (is_foreign json laws owner) (map compact new))
          (keep_foreign-compact json laws owner foreign ∙ ap (map compact) (keep_if-twice kept))
      ∙ ap (◌++◌ (map compact foreign)) (
          keep_foreign-compact json laws owner new ∙ ap (map compact) (no_foreign_entry wanted own))
      ∙ append-nil (map compact foreign)

  pub same_entries :
      (key : String) (object merged : OrderedRawObject json)
      → lookup key merged ≡ lookup key object
      → entries_at json key merged ≡ entries_at json key object
  unfolding entries_at
  same_entries key object merged h = ap (λ o. entries_in_elements json (elements_of json o)) h

  pub foreign_at-merge_event :
      (event key : String) (wanted : List Entry) (object merged : OrderedRawObject json)
      → All IsOwnEntry wanted
      → merge_event json owner event wanted object ≡ some merged
      → foreign_at key merged ≡ foreign_at key object
  foreign_at-merge_event event key wanted object merged own h =
      let (here, elsewhere) = merge_event_lem json laws owner event wanted object merged h in
      elim (Bool-cases (str_eq event key)) [
        | inl same ↦
            subst (λ (k : String). foreign_at k merged ≡ foreign_at k object)
              ((eq_iff event key).0 same)
              (foreign_after (entries_at json event object) wanted (entries_at json event merged)
                own here)
        | inr other ↦
            ap (λ es. map compact (keep_if (is_foreign json laws owner) es))
              (same_entries key object merged (elsewhere key other))
      ]

  -- The loop leaves every foreign entry of every event.
  pub foreign_at-merge_events :
      (key : String) (groups : Dict (List Entry)) (object merged : OrderedRawObject json)
      → All (λ (group : String × List Entry). All IsOwnEntry group.1) groups
      → merge_events json owner groups object ≡ some merged
      → foreign_at key merged ≡ foreign_at key object
  unfolding merge_events
  foreign_at-merge_events key [] object merged own h =
      ap (foreign_at key) (sym (some-injective _ _ h))
  foreign_at-merge_events key ((event, wanted) ∷ groups) object merged own h =
      let (next, first, rest) =
        bind_some (merge_event json owner event wanted object) (merge_events json owner groups) h in
      foreign_at-merge_events key groups next merged own.1 rest
      ∙ foreign_at-merge_event event key wanted object next own.0 first

  append_entry-IsOwnEntry :
      (group : Option (List Entry)) (e : Entry)
      → ((es : List Entry) → group ≡ some es → All IsOwnEntry es)
      → IsOwnEntry e
      → All IsOwnEntry (append_entry group e)
  append_entry-IsOwnEntry none e old h = (h, tt)
  append_entry-IsOwnEntry (some es) e old h =
      All-append IsOwnEntry es (e ∷ []) (old es refl) (h, tt)

  abbrev OwnGroup : String × List Entry → Type 0
  OwnGroup group = All IsOwnEntry group.1

  lookup-OwnGroup :
      (k : String) (groups : Dict (List Entry)) (es : List Entry)
      → All OwnGroup groups
      → lookup k groups ≡ some es
      → All IsOwnEntry es
  unfolding lookup
  lookup-OwnGroup k [] es h found = cc
  lookup-OwnGroup k ((j, v) ∷ groups) es h found = elim (Bool-cases (str_eq j k)) [
    | inl same ↦ subst (All IsOwnEntry) (some-injective _ _ (rw same at found)) h.0
    | inr other ↦ lookup-OwnGroup k groups es h.1 (rw other at found)
  ]

  insert-OwnGroup :
      (k : String) (es : List Entry) (groups : Dict (List Entry))
      → All IsOwnEntry es
      → All OwnGroup groups
      → All OwnGroup (insert k es groups)
  unfolding insert
  insert-OwnGroup k es [] own h = (own, tt)
  insert-OwnGroup k es ((j, v) ∷ groups) own h = elim (Bool-cases (str_eq j k)) [
    | inl same ↦ rw same (own, h.1)
    | inr other ↦ rw other (h.0, insert-OwnGroup k es groups own h.1)
  ]

  by_event-OwnGroup :
      (entries : List Entry) (groups : Dict (List Entry))
      → All IsOwnEntry entries
      → All OwnGroup groups
      → All OwnGroup (by_event entries groups)
  unfolding by_event
  by_event-OwnGroup [] groups own h = h
  by_event-OwnGroup (e ∷ es) groups own h =
      by_event-OwnGroup es (insert e.event (append_entry (lookup e.event groups) e) groups) own.1 (
        insert-OwnGroup e.event (append_entry (lookup e.event groups) e) groups
          (append_entry-IsOwnEntry (lookup e.event groups) e
            (λ old found. lookup-OwnGroup e.event groups old h found) own.0)
          h)

  pub each_unwanted-OwnGroup :
      (object : OrderedRawObject json) → All OwnGroup (each_unwanted json owner object)
  each_unwanted-OwnGroup [] = tt
  each_unwanted-OwnGroup (member ∷ object) = (tt, each_unwanted-OwnGroup object)

  -- An install leaves every other tool's hook entry of every event, whatever entries of its own it
  -- writes.
  pub foreign_at-install_events :
      (key : String) (entries : List Entry) (object merged : OrderedRawObject json)
      → All IsOwnEntry entries
      → install_events json owner entries object ≡ some merged
      → foreign_at key merged ≡ foreign_at key object
  unfolding install_events
  foreign_at-install_events key entries object merged own h =
      foreign_at-merge_events key (by_event entries []) object merged
        (by_event-OwnGroup entries [] own tt) h
