-- ===== src/Hooks/Merge/Groups.antt =====
-- internal/hooks/hooks.go: what `filterOwnedHooks` and the loop of `mergeEvent` leave of the groups.
use mathlib.Core.Option
use mathlib.Core.Bool.{false≢true}
use agentpulse_bridge.Base.{
  ◌≡◌, refl, ap, sym, subst, ◌∙◌, inl, inr, Bool, true, false, Option, none, some, List, [], ◌∷◌,
  ◌++◌, String, map, keep_if, Bool-cases,
}
use agentpulse_bridge.Base.Dict.{Dict, lookup, insert, lookup-insert}
use agentpulse_bridge.Hooks.Owner.{Owner}
use agentpulse_bridge.Hooks.Merge.{
  Json, is_ours, object_of, set_all, split_entries, filter_group, filter_entries, filter_hooks,
  filter_object, filter_owned_hooks, kept_group,
}
use agentpulse_bridge.Hooks.Merge.Entries.{
  JsonLaws, map_values, entries_in_array, entries_in_hooks, entries_in_object, entries_in_group,
  entries_in_groups,
}
use agentpulse_bridge.Hooks.Merge.Objects.{
  IsDistinct, or_else, lookup-map_values, lookup-set_all, map_values-IsDistinct, set_all-IsDistinct,
  insert-IsDistinct,
}
use agentpulse_bridge.Hooks.Merge.Compact.{is_foreign, map-append, map-compact_twice}

module _ (json : Json) (laws : JsonLaws json) where
  open laws use {compact, array_written, array_compact, members_written}

  entries_written :
      (rs : List json.Raw)
      → entries_in_hooks json (some (compact (json.of_array rs))) ≡ map compact (map compact rs)
  entries_written rs =
      ap (entries_in_array json) (array_compact (json.of_array rs))
      ∙ ap (λ o. entries_in_array json (Option.map (map compact) o)) (array_written rs)

  -- A group written with new hooks is read with those hooks.
  entries_in_group-of_members :
      (rs : List json.Raw) (group : Dict json.Raw)
      → IsDistinct group
      → entries_in_group json (json.of_members (insert "hooks" (json.of_array rs) group))
        ≡ map compact (map compact rs)
  unfolding entries_in_group
  entries_in_group-of_members rs group h =
      let written = insert "hooks" (json.of_array rs) group in
      ap (λ o. entries_in_object json (object_of json o)) (members_written written)
      ∙ ap (entries_in_hooks json) (
          lookup-set_all json "hooks" (map_values compact written) [] (
            map_values-IsDistinct compact written
              (insert-IsDistinct "hooks" (json.of_array rs) group h))
          ∙ ap (λ o. or_else o (lookup "hooks" [])) (lookup-map_values compact "hooks" written)
          ∙ ap (λ o. or_else (Option.map compact o) (lookup "hooks" []))
              (lookup-insert "hooks" "hooks" (json.of_array rs) group))
      ∙ entries_written rs

  module _ (owner : Owner) where
    pub split_entries-kept :
        (rs : List json.Raw)
        → (split_entries json owner rs).0 ≡ keep_if (is_foreign json laws owner) rs
    unfolding split_entries
    split_entries-kept [] = refl
    split_entries-kept (r ∷ rs) = elim (Bool-cases (is_ours json owner r)) [
      | inl ours ↦ rw ours (split_entries-kept rs)
      | inr foreign ↦ rw foreign (ap (◌∷◌ r) (split_entries-kept rs))
    ]

    pub split_entries-untouched :
        (rs : List json.Raw)
        → (split_entries json owner rs).1 ≡ false
        → keep_if (is_foreign json laws owner) rs ≡ rs
    unfolding split_entries
    split_entries-untouched [] h = refl
    split_entries-untouched (r ∷ rs) h = elim (Bool-cases (is_ours json owner r)) [
      | inl ours ↦ absurd (false≢true (sym h ∙ rw ours))
      | inr foreign ↦ rw foreign (ap (◌∷◌ r) (split_entries-untouched rs (rw foreign at h)))
    ]

    -- `kept` behind a group whose entries are `here`, of which the foreign ones stay.
    abbrev LeavesForeign : List json.Raw → List json.Raw → List json.Raw → Type 0
    LeavesForeign here kept written =
        map compact (entries_in_groups json written)
        ≡ map compact (keep_if (is_foreign json laws owner) here)
          ++ map compact (entries_in_groups json kept)

    unchanged_group :
        (elem : json.Raw) (kept : List json.Raw)
        → keep_if (is_foreign json laws owner) (entries_in_group json elem)
          ≡ entries_in_group json elem
        → LeavesForeign (entries_in_group json elem) kept (elem ∷ kept)
    unfolding entries_in_groups
    unchanged_group elem kept h =
        map-append compact (entries_in_group json elem) (entries_in_groups json kept)
        ∙ ap (λ es. map compact es ++ map compact (entries_in_groups json kept)) (sym h)

    rewritten_group :
        (elem : json.Raw) (group : Dict json.Raw) (kept entries : List json.Raw)
        (split : List json.Raw × Bool)
        → IsDistinct group
        → entries_in_group json elem ≡ entries
        → split.0 ≡ keep_if (is_foreign json laws owner) entries
        → (split.1 ≡ false → keep_if (is_foreign json laws owner) entries ≡ entries)
        → LeavesForeign entries kept
            (kept_group json owner elem (filter_group json owner group split) kept)
    unfolding entries_in_groups
    rewritten_group elem group kept entries (rs, false) d e foreign untouched =
        ap (λ es. map compact (es ++ entries_in_groups json kept)) (e ∙ sym (untouched refl))
        ∙ map-append compact (keep_if (is_foreign json laws owner) entries)
            (entries_in_groups json kept)
    rewritten_group elem group kept entries ([], true) d e foreign untouched =
        ap (λ es. map compact es ++ map compact (entries_in_groups json kept)) foreign
    rewritten_group elem group kept entries (r ∷ rs, true) d e foreign untouched =
        ap (λ es. map compact (es ++ entries_in_groups json kept))
          (entries_in_group-of_members (r ∷ rs) group d)
        ∙ map-append compact (map compact (map compact (r ∷ rs))) (entries_in_groups json kept)
        ∙ ap (λ es. es ++ map compact (entries_in_groups json kept))
            (map-compact_twice json laws (map compact (r ∷ rs))
              ∙ map-compact_twice json laws (r ∷ rs))
        ∙ ap (λ es. map compact es ++ map compact (entries_in_groups json kept)) foreign

    no_entries :
        (elem : json.Raw) (kept : List json.Raw)
        → entries_in_group json elem ≡ []
        → LeavesForeign (entries_in_group json elem) kept (elem ∷ kept)
    no_entries elem kept e =
        unchanged_group elem kept (ap (keep_if (is_foreign json laws owner)) e ∙ sym e)

    array_case :
        (elem : json.Raw) (group : Dict json.Raw) (kept : List json.Raw)
        (entries : Option (List json.Raw))
        → IsDistinct group
        → entries_in_group json elem ≡ entries_in_array json entries
        → LeavesForeign
            (entries_in_group json elem)
            kept
            (kept_group json owner elem (filter_entries json owner group entries) kept)
    array_case elem group kept none d e = no_entries elem kept e
    array_case elem group kept (some entries) d e =
        subst
          (λ es.
            LeavesForeign es kept
              (kept_group json owner elem (filter_entries json owner group (some entries)) kept))
          (sym e)
          (rewritten_group elem group kept entries (split_entries json owner entries) d e
            (split_entries-kept entries) (split_entries-untouched entries))

    hooks_case :
        (elem : json.Raw) (group : Dict json.Raw) (kept : List json.Raw)
        (hooks_raw : Option json.Raw)
        → IsDistinct group
        → entries_in_group json elem ≡ entries_in_hooks json hooks_raw
        → LeavesForeign
            (entries_in_group json elem)
            kept
            (kept_group json owner elem (filter_hooks json owner group hooks_raw) kept)
    hooks_case elem group kept none d e = no_entries elem kept e
    hooks_case elem group kept (some raw) d e = array_case elem group kept (json.array raw) d e

    members_case :
        (elem : json.Raw) (kept : List json.Raw) (members : Option (List (String × json.Raw)))
        → entries_in_group json elem ≡ entries_in_object json (object_of json members)
        → LeavesForeign
            (entries_in_group json elem)
            kept
            (kept_group json owner elem (filter_object json owner (object_of json members)) kept)
    members_case elem kept none e = no_entries elem kept e
    members_case elem kept (some ms) e =
        hooks_case elem (set_all json ms []) kept (lookup "hooks" (set_all json ms []))
          (set_all-IsDistinct json ms [] (unfold IsDistinct in tt)) e

    -- Of a group's entries the foreign ones stay, in their order.
    pub kept_group_lem :
        (elem : json.Raw) (kept : List json.Raw)
        → LeavesForeign
            (entries_in_group json elem)
            kept
            (kept_group json owner elem (filter_owned_hooks json owner elem) kept)
    unfolding filter_owned_hooks
    kept_group_lem elem kept =
        members_case elem kept (json.members elem) (unfold entries_in_group in refl)
