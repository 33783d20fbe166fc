-- ===== src/Tests/Json.antt =====
-- A small encoding/json for the witnesses: values as trees, with no white space to take away.
use mathlib.Core.Option
use agentpulse_bridge.Base.{
  ℕ, ◌≡◌, refl, ap, Option, none, some, List, [], ◌∷◌, String, map, sym, str_eq, if◌then◌else◌,
}
use agentpulse_bridge.Base.Text.{Text}
use agentpulse_bridge.Hooks.Merge.{Json}
use agentpulse_bridge.Hooks.Merge.Entries.{JsonLaws, map_values}

pub data Value : Type 0 where
  text : Text → Value
  array_end object_end : Value
  element : Value → Value → Value
  member : String → Value → Value → Value

abbrev pub elements : Value → Option (List Value)
elements array_end = some []
elements (element v vs) = Option.map (◌∷◌ v) (elements vs)
elements v = none

abbrev pub value_members : Value → Option (List (String × Value))
value_members object_end = some []
value_members (member k v vs) = Option.map (◌∷◌ (k, v)) (value_members vs)
value_members v = none

abbrev pub of_elements : List Value → Value
of_elements [] = array_end
of_elements (v ∷ vs) = element v (of_elements vs)

abbrev pub of_value_members : List (String × Value) → Value
of_value_members [] = object_end
of_value_members ((k, v) ∷ ms) = member k v (of_value_members ms)

abbrev text_of : Value → Option Text
text_of (text t) = some t
text_of v = none

abbrev pub command_member : Value → Option Text
command_member object_end = some []
command_member (member k v vs) =
    let rest = command_member vs in if str_eq k "command" then text_of v else rest
command_member v = none

abbrev pub hook_value : Text → ℕ → Value
hook_value command timeout = member "command" (text command) object_end

abbrev pub group_value : String → Text → ℕ → Value
group_value matcher command timeout =
    member "matcher" (text [])
      (member "hooks" (element (hook_value command timeout) array_end) object_end)

abbrev pub values : Json
values = record {
  Raw = Value;
  array = elements;
  members = value_members;
  command_of = command_member;
  of_array = of_elements;
  of_members = of_value_members;
  of_group = group_value;
}

map_same : (vs : List Value) → map (λ (v : Value). v) vs ≡ vs
map_same [] = refl
map_same (v ∷ vs) = ap (◌∷◌ v) (map_same vs)

map_values_same : (ms : List (String × Value)) → map_values (λ (v : Value). v) ms ≡ ms
map_values_same [] = refl
map_values_same ((k, v) ∷ ms) = ap (◌∷◌ (k, v)) (map_values_same ms)

elements-of_elements :
    (vs : List Value) → elements (of_elements vs) ≡ some (map (λ (v : Value). v) vs)
elements-of_elements [] = refl
elements-of_elements (v ∷ vs) = ap (Option.map (◌∷◌ v)) (elements-of_elements vs)

members-of_value_members :
    (ms : List (String × Value))
    → value_members (of_value_members ms) ≡ some (map_values (λ (v : Value). v) ms)
members-of_value_members [] = refl
members-of_value_members ((k, v) ∷ ms) = ap (Option.map (◌∷◌ (k, v))) (members-of_value_members ms)

map_option : {A : Type 0} (f : A → A) (o : Option A) → ((a : A) → f a ≡ a) → o ≡ Option.map f o
map_option f none h = refl
map_option f (some a) h = ap some (sym (h a))

pub values_laws : JsonLaws values
values_laws = record {
  compact = λ v. v;
  matcher_value = λ matcher. text [];
  hook = hook_value;
  compact_twice = λ v. refl;
  array_written = elements-of_elements;
  members_written = members-of_value_members;
  array_compact = λ v. map_option (map (λ (w : Value). w)) (elements v) map_same;
  members_compact =
      λ v. map_option (map_values (λ (w : Value). w)) (value_members v) map_values_same;
  command_compact = λ v. refl;
  members_group = λ matcher command timeout. refl;
  command_hook = λ command timeout h. refl;
}
