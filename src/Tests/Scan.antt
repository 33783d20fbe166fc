-- ===== src/Tests/Scan.antt =====
-- A run of scanObject over a small settings file.
use mathlib.Core.Option.{some-injective}
use agentpulse_bridge.Base.{
  ℕ, ◌<◌, ◌≤◌, ◌≡◌, refl, ap, subst, Bool, true, false, Option, none, some, [], ◌∷◌, length, Bytes,
  arith,
}
use agentpulse_bridge.Base.Text.{codes}
use agentpulse_bridge.Hooks.Scan.{
  Token, open_brace, close_brace, text_token, Read, token_read, end_of_input, Decoder, ok,
  scan_object, IsDecoder, skip_whitespace_and_comma, skip_whitespace_and_colon,
}
use agentpulse_bridge.Hooks.Scan.Laws.{IsScanned, scan_object-IsScanned}

abbrev pub content : Bytes
content = codes "{\"a\": 1}"

pub data Step : Type 0 where
  at_start behind_open behind_key behind_value at_end : Step

abbrev pub offset : Step → ℕ
offset at_start = 0
offset behind_open = 1
offset behind_key = 4
offset behind_value = 7
offset at_end = 8

abbrev pub token : Step → Read × Step
token at_start = (token_read open_brace, behind_open)
token behind_open = (token_read (text_token "a"), behind_key)
token behind_key = (end_of_input, behind_key)
token behind_value = (token_read close_brace, at_end)
token at_end = (end_of_input, at_end)

abbrev pub more : Step → Bool
more behind_open = true
more _ = false

abbrev pub decode : Step → Option Step
decode behind_key = some behind_value
decode _ = none

abbrev pub decoder : Decoder
decoder = record {
  State = Step;
  initial = at_start;
  token = token;
  more = more;
  decode = decode;
  offset = offset;
}

abbrev Moves : ℕ → Step → Type 0
Moves low s = (low < offset s) × (offset s ≤ length content)

token-Moves :
    (s s' : Step) (t : Token)
    → token s ≡ (token_read t, s')
    → Moves (skip_whitespace_and_comma content (offset s)) s'
unfolding skip_whitespace_and_comma
token-Moves at_start s' t e =
    subst (Moves 0) (ap (λ (p : Read × Step). p.1) e) (omega arith, omega arith)
token-Moves behind_open s' t e =
    subst (Moves 1) (ap (λ (p : Read × Step). p.1) e) (omega arith, omega arith)
token-Moves behind_key s' t e = cc
token-Moves behind_value s' t e =
    subst (Moves 7) (ap (λ (p : Read × Step). p.1) e) (omega arith, omega arith)
token-Moves at_end s' t e = cc

decode-Moves :
    (s s' : Step) → decode s ≡ some s' → Moves (skip_whitespace_and_colon content (offset s)) s'
unfolding skip_whitespace_and_colon
decode-Moves at_start s' e = cc
decode-Moves behind_open s' e = cc
decode-Moves behind_key s' e = subst (Moves 6) (some-injective _ _ e) (omega arith, omega arith)
decode-Moves behind_value s' e = cc
decode-Moves at_end s' e = cc

pub decoder-IsDecoder : IsDecoder decoder content
decoder-IsDecoder = record { token_moves = token-Moves; decode_moves = decode-Moves }

scan_runs :
    scan_object decoder content
    ≡ ok (record { key = "a"; key_start = 1; value_start = 6; value_end = 7 } ∷ [], 0, 7)
unfolding scan_object
scan_runs = refl

scan_object-IsScanned_example :
    IsScanned decoder content decoder-IsDecoder (scan_object decoder content)
scan_object-IsScanned_example = scan_object-IsScanned decoder content decoder-IsDecoder
