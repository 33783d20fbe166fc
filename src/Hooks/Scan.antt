-- ===== src/Hooks/Scan.antt =====
-- internal/hooks/splice.go: `scanObject`. The decoder of encoding/json is a parameter.
pub mod Added
pub mod Laws
use agentpulse_bridge.Base.{
  ℕ, zero, suc, ◌+◌, ◌-◌, ◌<◌, ◌≤◌, ◌≡◌, Bool, true, false, ◌||◌, Option, none, some, List, [], ◌∷◌,
  ◌==◌, String, str_eq, if◌then◌else◌, any, drop, length, Bytes,
}
use agentpulse_bridge.Hooks.Splice.{Member}

pub data Token : Type 0 where
  open_brace close_brace other_token : Token
  text_token : String → Token

-- What `Token` returns: a token, io.EOF or another error.
pub data Read : Type 0 where
  token_read : Token → Read
  end_of_input bad_input : Read

-- A json.Decoder over a text: where it stands is its state. A failing `Decode` is `none`.
pub record Decoder : Type 1 where
  pub State : Type 0
  pub initial : State
  pub token : State → Read × State
  pub more : State → Bool
  pub decode : State → Option State
  pub offset : State → ℕ

pub data ScanError : Type 0 where
  decoder_failed not_an_object not_a_key not_closed : ScanError
  listed_twice : String → ℕ → ScanError
  bad_value : String → ScanError
  content_behind : ℕ → ScanError

pub data Scanned (A : Type 0) : Type 0 where
  ok : A → Scanned A
  failed : ScanError → Scanned A
  out_of_fuel : Scanned A

abbrev pub is_white : ℕ → Bool
is_white c = c == b' ' || c == b'\t' || c == b'\n' || c == b'\r'

abbrev pub skip_while : (ℕ → Bool) → Bytes → ℕ → ℕ
skip_while p [] pos = pos
skip_while p (c ∷ s) pos = let further = skip_while p s (pos + 1) in if p c then further else pos

unfoldable pub skip_whitespace_and_comma : Bytes → ℕ → ℕ
skip_whitespace_and_comma content pos =
    skip_while (λ c. is_white c || c == b',') (drop pos content) pos

unfoldable pub skip_whitespace_and_colon : Bytes → ℕ → ℕ
skip_whitespace_and_colon content pos =
    skip_while (λ c. is_white c || c == b':') (drop pos content) pos

abbrev pub has_key : String → List String → Bool
has_key key seen = any (λ k. str_eq k key) seen

module _ (decoder : Decoder) (content : Bytes) where
  abbrev pub Members : Type 0
  Members = Scanned (List Member × decoder.State)

  abbrev pub with_member : Member → Members → Members
  with_member m (ok (ms, s)) = ok (m ∷ ms, s)
  with_member m (failed e) = failed e
  with_member m out_of_fuel = out_of_fuel

  -- The value behind a key, and what the rest of the loop makes of the decoder's state after it.
  abbrev pub scan_value :
      String → ℕ → decoder.State → Option decoder.State → (decoder.State → Members) → Members
  scan_value key key_start s none rest = failed (bad_value key)
  scan_value key key_start s (some s') rest =
      with_member
        (record {
          key = key;
          key_start = key_start;
          value_start = skip_whitespace_and_colon content (decoder.offset s);
          value_end = decoder.offset s';
        })
        (rest s')

  abbrev pub scan_key :
      List String → ℕ → Read × decoder.State → (List String → decoder.State → Members) → Members
  scan_key seen key_start (token_read (text_token key), s) rest =
      if has_key key seen
      then failed (listed_twice key key_start)
      else scan_value key key_start s (decoder.decode s) (rest (key ∷ seen))
  scan_key seen key_start (token_read open_brace, s) rest = failed not_a_key
  scan_key seen key_start (token_read close_brace, s) rest = failed not_a_key
  scan_key seen key_start (token_read other_token, s) rest = failed not_a_key
  scan_key seen key_start (end_of_input, s) rest = failed decoder_failed
  scan_key seen key_start (bad_input, s) rest = failed decoder_failed

  -- The loop over the members; a position in the text is always the decoder's offset.
  unfoldable pub scan_members : ℕ → List String → decoder.State → Members
  unfolding skip_whitespace_and_comma skip_whitespace_and_colon
  scan_members zero seen s = out_of_fuel
  scan_members (suc fuel) seen s =
      let further =
        scan_key seen (skip_whitespace_and_comma content (decoder.offset s)) (decoder.token s)
          (scan_members fuel) in
      if decoder.more s then further else ok ([], s)

  abbrev pub Object : Type 0
  Object = Scanned (List Member × ℕ × ℕ)

  abbrev pub scan_end : List Member → ℕ → ℕ → Read × decoder.State → Object
  scan_end ms brace_open brace_close (end_of_input, s) = ok (ms, brace_open, brace_close)
  scan_end ms brace_open brace_close (bad_input, s) = failed (content_behind (decoder.offset s))
  scan_end ms brace_open brace_close (token_read t, s) = failed (content_behind (decoder.offset s))

  abbrev pub scan_close : List Member → ℕ → Read × decoder.State → Object
  scan_close ms brace_open (token_read close_brace, s) =
      scan_end ms brace_open (decoder.offset s - 1) (decoder.token s)
  scan_close ms brace_open (token_read open_brace, s) = failed not_closed
  scan_close ms brace_open (token_read other_token, s) = failed not_closed
  scan_close ms brace_open (token_read (text_token t), s) = failed not_closed
  scan_close ms brace_open (end_of_input, s) = failed decoder_failed
  scan_close ms brace_open (bad_input, s) = failed decoder_failed

  abbrev pub scan_rest : ℕ → Members → Object
  scan_rest brace_open (ok (ms, s)) = scan_close ms brace_open (decoder.token s)
  scan_rest brace_open (failed e) = failed e
  scan_rest brace_open out_of_fuel = out_of_fuel

  abbrev pub scan_open : Read × decoder.State → Object
  unfolding scan_members
  scan_open (token_read open_brace, s) =
      scan_rest (decoder.offset s - 1) (scan_members (length content + 1) [] s)
  scan_open (token_read close_brace, s) = failed not_an_object
  scan_open (token_read other_token, s) = failed not_an_object
  scan_open (token_read (text_token t), s) = failed not_an_object
  scan_open (end_of_input, s) = failed decoder_failed
  scan_open (bad_input, s) = failed decoder_failed

  unfoldable pub scan_object : Object
  unfolding scan_open scan_members
  scan_object = scan_open (decoder.token decoder.initial)

  -- What the code relies on: a token and a value end within the text, behind what the two skipping
  -- functions skip and at least one byte more.
  pub record IsDecoder : Type 0 where
    pub token_moves :
        (s s' : decoder.State) (t : Token)
        → decoder.token s ≡ (token_read t, s')
        → (skip_whitespace_and_comma content (decoder.offset s) < decoder.offset s')
          × (decoder.offset s' ≤ length content)
    pub decode_moves :
        (s s' : decoder.State)
        → decoder.decode s ≡ some s'
        → (skip_whitespace_and_colon content (decoder.offset s) < decoder.offset s')
          × (decoder.offset s' ≤ length content)
