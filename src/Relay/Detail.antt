-- ===== src/Relay/Detail.antt =====
-- internal/relay/chunk.go and client.go: what is read from a refusal's detail text and from its
-- Retry-After header.
use agentpulse_bridge.Base.{
  ◌≡◌, refl, ℕ, ◌*◌, ◌%◌, ◌^◌, Bool, true, ◌&&◌, ◌||◌, Option, none, some, [], ◌∷◌, leb, ◌==◌,
  if◌then◌else◌, length,
}
use agentpulse_bridge.Base.Text.{
  Text, codes, is_digit, is_lower, ℤ, pos, atoi, trim_space, strip_prefix,
}

-- The greedy `\d+` and what follows it.
unfoldable pub span_digits : Text → Text × Text
span_digits [] = ([], [])
span_digits (c ∷ s) =
    let (run, rest) = span_digits s in if is_digit c then (c ∷ run, rest) else ([], c ∷ s)

-- `^events\.(\d+)` : the digits and the text after them.
abbrev events_index : Text → Option (Text × Text)
events_index detail = elim (strip_prefix (codes "events.") detail) [
  | none ↦ none
  | some s ↦ elim (span_digits s).0 [ [] ↦ none | _ ↦ some (span_digits s) ]
]

abbrev non_negative : Option ℤ → Option ℕ
non_negative (some (pos n)) = some n
non_negative _ = none

-- The pattern ends in `[.:]`.
abbrev index_before : Text × Text → Option ℕ
index_before (run, []) = none
index_before (run, c ∷ s) = if c == b'.' || c == b':' then non_negative (atoi run) else none

unfoldable pub parse_event_index : Text → Option ℕ
unfolding span_digits atoi
parse_event_index detail = elim (events_index detail) [ none ↦ none | some m ↦ index_before m ]

abbrev is_field_char : ℕ → Bool
is_field_char c = is_lower c || c == b'_'

abbrev all_field_chars : Text → Bool
all_field_chars [] = true
all_field_chars (c ∷ s) = is_field_char c && all_field_chars s

-- `[a-z_]{1,64}$`
abbrev field_name : Option Text → Text
field_name none = []
field_name (some name) =
    if leb 1 (length name) && leb (length name) 64 && all_field_chars name then name else []

unfoldable pub parse_unexpected_field : Text → Text
unfolding span_digits
parse_unexpected_field detail = elim (events_index detail) [
  | none ↦ []
  | some m ↦ field_name (strip_prefix (codes ": unexpected field ") m.1)
]

abbrev pub second : ℕ
second = 1000000000

-- `time.Duration(secs) * time.Second` on an int64, which wraps.
abbrev pub seconds_wrapped : ℕ → ℕ
seconds_wrapped secs = secs * second % 2 ^ 64

abbrev delay_of : Option ℤ → Option ℕ
delay_of (some (pos secs)) = some (seconds_wrapped secs)
delay_of _ = none

unfoldable pub parse_retry_after : Text → Option ℕ
unfolding trim_space atoi
parse_retry_after [] = none
parse_retry_after (c ∷ s) = delay_of (atoi (trim_space (c ∷ s)))

index_of_detail : parse_event_index (codes "events.12.payload: bad") ≡ some 12
unfolding parse_event_index
index_of_detail = refl

field_of_detail :
    parse_unexpected_field (codes "events.3: unexpected field subagent") ≡ codes "subagent"
unfolding parse_unexpected_field
field_of_detail = refl

delay_of_header : parse_retry_after (codes " 30 ") ≡ some (30 * second)
unfolding parse_retry_after
delay_of_header = refl
