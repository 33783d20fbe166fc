-- ===== src/Hooks/Scan/Added.antt =====
-- internal/hooks/splice.go: what scanObject finds of a member that spliceTopLevelKey put in, and that
-- taking that out again leaves the text as it was.
use agentpulse_bridge.Base.{
  ℕ, ◌+◌, ◌≤◌, ◌≡◌, true, false, ◌||◌, ◌==◌, some, ◌∷◌, ◌++◌, String, Bytes, take, drop, length,
  All,
}
use agentpulse_bridge.Base.Text.{codes}
use agentpulse_bridge.Hooks.Splice.{Member, quoted_key}
use agentpulse_bridge.Hooks.Scan.{
  Decoder, text_token, token_read, skip_whitespace_and_comma, skip_whitespace_and_colon, is_white,
}

abbrev pub IsIndent : ℕ → Type 0
IsIndent c = (c == b' ' || c == b'\t') ≡ true

-- A key as it stands in the text, between its quotes.
abbrev pub key_text : String → Bytes
key_text key = codes "\"" ++ codes key ++ codes "\""

module _ (content line_indent : Bytes) (at : ℕ) (key : String) (first : ℕ) (value : Bytes)
    (within : at ≤ length content) (white : All IsIndent line_indent)
    (starts : (is_white first || first == b':') ≡ false) where
  abbrev front : Bytes
  front = codes ",\n" ++ line_indent

  abbrev behind : Bytes
  behind = (first ∷ value) ++ drop at content

  abbrev with_member_at : Bytes
  with_member_at =
      take at content
      ++ ((codes ",\n" ++ line_indent ++ quoted_key key ++ (first ∷ value)) ++ drop at content)

-- The decoder at the member that was added: there is one more, its key is a text token that ends
-- behind its closing quote, its value is of `size` bytes, and no member is behind it.
pub record Reads (decoder : Decoder) (text : Bytes) (key : String) (size start : ℕ)
    (s s' s'' : decoder.State) : Type 0 where
  pub starts : decoder.offset s ≡ start
  pub more : decoder.more s ≡ true
  pub token : decoder.token s ≡ (token_read (text_token key), s')
  pub key_ends :
      decoder.offset s' ≡ skip_whitespace_and_comma text (decoder.offset s) + length (key_text key)
  pub value : decoder.decode s' ≡ some s''
  pub value_ends : decoder.offset s'' ≡ skip_whitespace_and_colon text (decoder.offset s') + size
  pub ends : decoder.more s'' ≡ false

abbrev member_at : String → ℕ → ℕ → ℕ → Member
member_at key key_start value_start value_end = record {
  key = key;
  key_start = key_start;
  value_start = value_start;
  value_end = value_end;
}
