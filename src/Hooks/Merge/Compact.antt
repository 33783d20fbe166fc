-- ===== src/Hooks/Merge/Compact.antt =====
-- internal/hooks: that a value was written anew makes no difference to the hook entries in it, but for
-- the white space between their tokens.
use mathlib.Core.Option
use agentpulse_bridge.Base.{
  ◌≡◌, refl, ap, sym, ◌∙◌, inl, inr, Bool, not, Option, none, some, List, [], ◌∷◌, ◌++◌, String,
  map, append_assoc, keep_if, Bool-cases,
}
use agentpulse_bridge.Base.Dict.{lookup}
use agentpulse_bridge.Hooks.Owner.{Owner}
use agentpulse_bridge.Hooks.Merge.{Json, is_ours, owns_command, object_of, set_all}
use agentpulse_bridge.Hooks.Merge.Entries.{
  JsonLaws, map_values, entries_in_array, entries_in_hooks, entries_in_object, entries_in_group,
  entries_in_groups,
}
use agentpulse_bridge.Hooks.Merge.Objects.{lookup-map_values, set_all-map_values}

module _ {A B : Type 0} where
  pub map-append : (f : A → B) (xs ys : List A) → map f (xs ++ ys) ≡ map f xs ++ map f ys
  map-append f [] ys = refl
  map-append f (x ∷ xs) ys = ap (◌∷◌ (f x)) (map-append f xs ys)

  -- A test that a rewriting does not change picks the same elements after it.
  pub keep_if-map :
      (f : A → B) (p : B → Bool) (q : A → Bool) (xs : List A)
      → ((x : A) → p (f x) ≡ q x)
      → keep_if p (map f xs) ≡ map f (keep_if q xs)
  keep_if-map f p q [] h = refl
  keep_if-map f p q (x ∷ xs) h = elim (Bool-cases (q x)) [
    | inl kept ↦ rw (h x, kept) (ap (◌∷◌ (f x)) (keep_if-map f p q xs h))
    | inr gone ↦ rw (h x, gone) (keep_if-map f p q xs h)
  ]

module _ (json : Json) (laws : JsonLaws json) where
  open laws use {compact, compact_twice, array_compact, members_compact, command_compact}

  pub map-compact_twice : (rs : List json.Raw) → map compact (map compact rs) ≡ map compact rs
  map-compact_twice [] = refl
  map-compact_twice (r ∷ rs) = rw (compact_twice r, map-compact_twice rs)

  entries_in_array-compact :
      (rs : Option (List json.Raw))
      → entries_in_array json (Option.map (map compact) rs) ≡ map compact (entries_in_array json rs)
  entries_in_array-compact none = refl
  entries_in_array-compact (some rs) = refl

  entries_in_hooks-compact :
      (r : Option json.Raw)
      → entries_in_hooks json (Option.map compact r) ≡ map compact (entries_in_hooks json r)
  entries_in_hooks-compact none = refl
  entries_in_hooks-compact (some r) =
      ap (entries_in_array json) (array_compact r) ∙ entries_in_array-compact (json.array r)

  entries_in_object-compact :
      (ms : Option (List (String × json.Raw)))
      → entries_in_object json (object_of json (Option.map (map_values compact) ms))
        ≡ map compact (entries_in_object json (object_of json ms))
  entries_in_object-compact none = refl
  entries_in_object-compact (some ms) =
      ap (λ o. entries_in_hooks json (lookup "hooks" o)) (set_all-map_values json compact ms [])
      ∙ ap (entries_in_hooks json) (lookup-map_values compact "hooks" (set_all json ms []))
      ∙ entries_in_hooks-compact (lookup "hooks" (set_all json ms []))

  pub entries_in_group-compact :
      (r : json.Raw) → entries_in_group json (compact r) ≡ map compact (entries_in_group json r)
  unfolding entries_in_group
  entries_in_group-compact r =
      ap (λ ms. entries_in_object json (object_of json ms)) (members_compact r)
      ∙ entries_in_object-compact (json.members r)

  pub entries_in_groups-compact :
      (rs : List json.Raw)
      → entries_in_groups json (map compact rs) ≡ map compact (entries_in_groups json rs)
  unfolding entries_in_groups
  entries_in_groups-compact [] = refl
  entries_in_groups-compact (r ∷ rs) =
      ap (◌++◌ (entries_in_group json (compact r))) (entries_in_groups-compact rs)
      ∙ ap (λ es. es ++ map compact (entries_in_groups json rs)) (entries_in_group-compact r)
      ∙ sym (map-append compact (entries_in_group json r) (entries_in_groups json rs))

  pub entries_in_groups-append :
      (rs ss : List json.Raw)
      → entries_in_groups json (rs ++ ss) ≡ entries_in_groups json rs ++ entries_in_groups json ss
  unfolding entries_in_groups
  entries_in_groups-append [] ss = refl
  entries_in_groups-append (r ∷ rs) ss =
      ap (◌++◌ (entries_in_group json r)) (entries_in_groups-append rs ss)
      ∙ sym (
          append_assoc (entries_in_group json r) (entries_in_groups json rs)
            (entries_in_groups json ss))

  module _ (owner : Owner) where
    abbrev pub is_foreign : json.Raw → Bool
    is_foreign r = not (is_ours json owner r)

    pub keep_foreign-compact :
        (rs : List json.Raw)
        → keep_if is_foreign (map compact rs) ≡ map compact (keep_if is_foreign rs)
    keep_foreign-compact rs =
        keep_if-map compact is_foreign is_foreign rs
          (λ r. ap (λ c. not (owns_command json owner c)) (command_compact r))
