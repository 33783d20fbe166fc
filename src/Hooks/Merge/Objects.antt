-- ===== src/Hooks/Merge/Objects.antt =====
-- internal/hooks/ordered.go: an object read from its members, and rewriting all its values.
use mathlib.Core.Option
use agentpulse_bridge.Base.{
  ◌≡◌, refl, ap, sym, ◌∙◌, inl, inr, true, Option, none, some, List, [], ◌∷◌, String, Bool-cases,
  str_eq, eq_iff, arith,
}
use agentpulse_bridge.Base.Dict.{Dict, lookup, insert, lookup-insert}
use agentpulse_bridge.Hooks.Merge.{Json, set_all}
use agentpulse_bridge.Hooks.Merge.Entries.{map_values}

-- An object's keys are different from each other.
unfoldable pub IsDistinct : {V : Type 0} → Dict V → Type 0
unfolding lookup
IsDistinct [] = Unit
IsDistinct ((k, v) ∷ m) = (lookup k m ≡ none) × IsDistinct m

abbrev pub or_else : {V : Type 0} → Option V → Option V → Option V
or_else none b = b
or_else (some a) b = some a

module _ {V : Type 0} where
  pub insert-IsDistinct :
      (k : String) (v : V) (m : Dict V) → IsDistinct m → IsDistinct (insert k v m)
  unfolding IsDistinct lookup insert
  insert-IsDistinct k v [] h = (refl, tt)
  insert-IsDistinct k v ((j, w) ∷ m) h = elim (Bool-cases (str_eq j k)) [
    | inl same ↦ rw same (h.0, h.1)
    | inr other ↦ rw other (
      lookup-insert k j v m ∙ ground (arith, eq_iff k j, eq_iff j k, h.0),
      insert-IsDistinct k v m h.1,
    )
  ]

module _ {V : Type 0} where
  pub lookup-IsDistinct_head :
      (j k : String) (v : V) (m : Dict V)
      → lookup j m ≡ none
      → str_eq j k ≡ true
      → lookup k m ≡ none
  lookup-IsDistinct_head j k v m h e = ap (λ (i : String). lookup i m) (sym ((eq_iff j k).0 e)) ∙ h

  pub lookup-map_values :
      (f : V → V) (k : String) (m : Dict V) → lookup k (map_values f m) ≡ Option.map f (lookup k m)
  unfolding lookup
  lookup-map_values f k [] = refl
  lookup-map_values f k ((j, v) ∷ m) = elim (Bool-cases (str_eq j k)) [
    | inl same ↦ rw same
    | inr other ↦ rw other (lookup-map_values f k m)
  ]

  pub insert-map_values :
      (f : V → V) (k : String) (v : V) (m : Dict V)
      → insert k (f v) (map_values f m) ≡ map_values f (insert k v m)
  unfolding insert
  insert-map_values f k v [] = refl
  insert-map_values f k v ((j, w) ∷ m) = elim (Bool-cases (str_eq j k)) [
    | inl same ↦ rw same
    | inr other ↦ rw other (ap (◌∷◌ (j, f w)) (insert-map_values f k v m))
  ]

  pub map_values-IsDistinct : (f : V → V) (m : Dict V) → IsDistinct m → IsDistinct (map_values f m)
  unfolding IsDistinct
  map_values-IsDistinct f [] h = tt
  map_values-IsDistinct f ((k, v) ∷ m) h =
      (lookup-map_values f k m ∙ ap (Option.map f) h.0, map_values-IsDistinct f m h.1)

module _ (json : Json) where
  pub set_all-map_values :
      (f : json.Raw → json.Raw) (ms : List (String × json.Raw)) (o : Dict json.Raw)
      → set_all json (map_values f ms) (map_values f o) ≡ map_values f (set_all json ms o)
  set_all-map_values f [] o = refl
  set_all-map_values f ((k, v) ∷ ms) o =
      ap (set_all json (map_values f ms)) (insert-map_values f k v o)
      ∙ set_all-map_values f ms (insert k v o)

  pub set_all-IsDistinct :
      (ms : List (String × json.Raw)) (o : Dict json.Raw)
      → IsDistinct o
      → IsDistinct (set_all json ms o)
  set_all-IsDistinct [] o h = h
  set_all-IsDistinct ((k, v) ∷ ms) o h =
      set_all-IsDistinct ms (insert k v o) (insert-IsDistinct k v o h)

  -- Members with different keys all stand in the object, over what stood there before.
  pub lookup-set_all :
      (k : String) (ms : List (String × json.Raw)) (o : Dict json.Raw)
      → IsDistinct ms
      → lookup k (set_all json ms o) ≡ or_else (lookup k ms) (lookup k o)
  unfolding IsDistinct lookup
  lookup-set_all k [] o h = refl
  lookup-set_all k ((j, v) ∷ ms) o h =
      lookup-set_all k ms (insert j v o) h.1
      ∙ ap (or_else (lookup k ms)) (lookup-insert j k v o)
      ∙ elim (Bool-cases (str_eq j k)) [
        | inl same ↦ rw (same, lookup-IsDistinct_head j k v ms h.0 same)
        | inr other ↦ rw other
      ]
