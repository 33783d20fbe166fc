-- ===== src/Flush/Subagents.antt =====
-- cmd/agentpulse/flush_subagent.go: the fallback for a relay that does not know the `subagent` field.
use agentpulse_bridge.Base.{
  ℕ, ◌+◌, ◌*◌, Bool, true, false, ◌&&◌, ◌||◌, Option, none, some, String, List, [], ◌∷◌, ◌++◌, ◌==◌,
  str_eq, if◌then◌else◌, get_elem?, Bytes,
}
use agentpulse_bridge.Base.Text.{Text, codes, starts_with}
use agentpulse_bridge.Base.Dict.{Dict, lookup, remove}
use agentpulse_bridge.Relay.Types.{DroppedEvent}

abbrev pub subagent_fallback_period : ℕ
subagent_fallback_period = 60 * 60 * 1000000000

abbrev pub subagent_key : Bytes
subagent_key = codes "\"subagent\""

-- `bytes.Contains`
unfoldable pub contains : Bytes → Bytes → Bool
contains [] needle = starts_with needle []
contains (c ∷ s) needle = starts_with needle (c ∷ s) || contains s needle

abbrev pub has_subagent : Bytes → Bool
has_subagent line = contains line subagent_key

abbrev has_subagent_at : Option Bytes → Bool
has_subagent_at none = false
has_subagent_at (some line) = has_subagent line

abbrev pub is_text : Text → Text → Bool
is_text [] [] = true
is_text (c ∷ s) (d ∷ t) = c == d && is_text s t
is_text _ _ = false

-- The relay rejected this event for its `subagent` field.
abbrev pub is_rejected_subagent : List Bytes → DroppedEvent → Bool
is_rejected_subagent cur d =
    is_text d.unexpected_field (codes "subagent") && has_subagent_at (get_elem? cur d.index)

unfoldable pub split_subagent_rejections : List Bytes → List DroppedEvent → List DroppedEvent × ℕ
split_subagent_rejections cur [] = ([], 0)
split_subagent_rejections cur (d ∷ dropped) =
    let (rest, rejected) = split_subagent_rejections cur dropped in
    if is_rejected_subagent cur d then (rest, rejected + 1) else (d ∷ rest, rejected)

-- encoding/json: the members of a line that decodes to a `map[string]json.RawMessage`, the string
-- that a raw value is, empty if it is none, and the encoding of such a map.
pub record FieldCodec : Type 0 where
  pub members : Bytes → Option (Dict Bytes)
  pub text_of : Bytes → String
  pub marshal : Dict Bytes → Option Bytes

module _ (fields : FieldCodec) where
  abbrev encoded : Option Bytes → List Bytes
  encoded none = []
  encoded (some line) = line ∷ []

  abbrev type_in : Option Bytes → String
  type_in none = ""
  type_in (some raw) = fields.text_of raw

  -- The line means nothing without its `subagent`.
  abbrev pub is_bound : Dict Bytes → Bool
  is_bound ev =
      let typ = type_in (lookup "type" ev) in
      str_eq typ "subagent_start" || str_eq typ "subagent_stop"

  abbrev pub strip_object : Bytes → Option (Dict Bytes) → List Bytes
  strip_object line none = line ∷ []
  strip_object line (some ev) =
      if is_bound ev then [] else encoded (fields.marshal (remove "subagent" ev))

  -- What becomes of one line: itself, one without the field, or none.
  abbrev pub strip_line : Bytes → List Bytes
  strip_line line = if has_subagent line then strip_object line (fields.members line) else line ∷ []

  unfoldable pub strip_subagents : List Bytes → List Bytes
  unfolding lookup remove
  strip_subagents [] = []
  strip_subagents (line ∷ lines) = strip_line line ++ strip_subagents lines
