-- ===== src/Base/Dict.antt =====
-- Go maps with string keys, as association lists. Iteration order is never relied on.
use Prim.Native.Nat.{suc, ◌+◌, ◌≤◌}
use Prim.Native.String.{String}
use mathlib.Core.Path.{◌≡◌, refl, ap}
use mathlib.Core.Logic.{inl, inr}
use mathlib.Core.Bool.{Bool}
use mathlib.Core.List.{List, [], ◌∷◌}
use mathlib.Core.Option.{Option, none, some}
use native.Mathlib.Omega.{arith}
use text.Mathlib.Text.{◌==◌ as str_eq}
use text.Mathlib.TextEquality.{eq_iff}
use agentpulse_bridge.Base.Tests.{if◌then◌else◌, Bool-cases}
use agentpulse_bridge.Base.Lists.{length, keep_if}

abbrev pub Dict {ℓ} : Type ℓ → Type ℓ
Dict V = List (String × V)

module _ {ℓ} {V : Type ℓ} where
  unfoldable pub lookup : String → Dict V → Option V
  lookup k [] = none
  lookup k ((j, v) ∷ m) = if str_eq j k then some v else lookup k m

  -- `m[k] = v`
  unfoldable pub insert : String → V → Dict V → Dict V
  insert k v [] = (k, v) ∷ []
  insert k v ((j, w) ∷ m) = if str_eq j k then (j, v) ∷ m else (j, w) ∷ insert k v m

  -- `delete(m, k)`
  unfoldable pub remove : String → Dict V → Dict V
  remove k [] = []
  remove k ((j, w) ∷ m) = let rest = remove k m in if str_eq j k then rest else (j, w) ∷ rest

  pub lookup-insert :
      (k j : String) (v : V) (m : Dict V)
      → lookup j (insert k v m) ≡ (if str_eq k j then some v else lookup j m)
  unfolding lookup insert
  lookup-insert k j v [] = refl
  lookup-insert k j v ((head_key, head) ∷ m) =
      ground (arith, lookup-insert k j v m, eq_iff head_key j, eq_iff head_key k, eq_iff k j)

  pub lookup-remove :
      (k j : String) (m : Dict V)
      → lookup j (remove k m) ≡ (if str_eq k j then none else lookup j m)
  unfolding lookup remove
  lookup-remove k j [] = ground arith
  lookup-remove k j ((i, w) ∷ m) =
      ground (arith, eq_iff k j, eq_iff i k, eq_iff i j, lookup-remove k j m)

  pub length-insert_present :
      (k : String) (v w : V) (m : Dict V) → lookup k m ≡ some w → length (insert k v m) ≡ length m
  unfolding lookup insert
  length-insert_present k v w [] h = cc
  length-insert_present k v w ((i, u) ∷ m) h = elim (Bool-cases (str_eq i k)) [
    | inl e ↦ rw e
    | inr e ↦ rw e (ap suc (length-insert_present k v w m (rw e at h)))
  ]

  pub length-insert-le : (k : String) (v : V) (m : Dict V) → length (insert k v m) ≤ length m + 1
  unfolding insert
  length-insert-le k v [] = omega arith
  length-insert-le k v ((i, u) ∷ m) = elim (Bool-cases (str_eq i k)) [
    | inl e ↦ rw e (omega arith)
    | inr e ↦ rw e (omega (arith, length-insert-le k v m))
  ]

  pub length-remove-le : (k : String) (m : Dict V) → length (remove k m) ≤ length m
  unfolding remove
  length-remove-le k [] = omega arith
  length-remove-le k ((i, u) ∷ m) = elim (Bool-cases (str_eq i k)) [
    | inl e ↦ rw e (omega (arith, length-remove-le k m))
    | inr e ↦ rw e (omega (arith, length-remove-le k m))
  ]

  -- Deleting the entries that a test on the value picks: the keys that are left have their values.
  pub lookup-keep_if :
      (p : String × V → Bool) (k : String) (v : V) (m : Dict V)
      → lookup k (keep_if p m) ≡ some v
      → (w : V) × (lookup k m ≡ some w)
  unfolding lookup
  lookup-keep_if p k v [] h = cc
  lookup-keep_if p k v ((i, u) ∷ m) h = elim (Bool-cases (str_eq i k)) [
    | inl e ↦ (u, rw e)
    | inr e ↦ elim (Bool-cases (p (i, u))) [
      | inl kept ↦ let (w, q) = lookup-keep_if p k v m (rw (kept, e) at h) in (w, rw e q)
      | inr gone ↦ let (w, q) = lookup-keep_if p k v m (rw gone at h) in (w, rw e q)
    ]
  ]
