-- ===== src/Hooks/Scan/Laws.antt =====
-- internal/hooks/splice.go: what scanObject finds is what spliceTopLevelKey takes for granted.
use agentpulse_bridge.Base.{
  ℕ, zero, suc, ◌+◌, ◌-◌, ◌<◌, ◌≤◌, ◌≡◌, refl, ap, sym, subst, inl, inr, ◌⊎◌, Bool, false, Option,
  none, some, List, [], ◌∷◌, String, drop, length, Bytes, Bool-cases, arith,
}
use agentpulse_bridge.Hooks.Splice.{Member}
use agentpulse_bridge.Hooks.Splice.Ranges.{IsOrdered}
use agentpulse_bridge.Hooks.Scan.{
  open_brace, close_brace, other_token, text_token, Read, token_read, end_of_input, bad_input,
  Decoder, ScanError, decoder_failed, not_an_object, not_a_key, not_closed, listed_twice, bad_value,
  content_behind, ok, failed, skip_while, skip_whitespace_and_comma, skip_whitespace_and_colon,
  has_key, with_member, scan_value, scan_key, scan_members, scan_end, scan_close, scan_rest,
  scan_open, scan_object, IsDecoder, Members, Object,
}

-- No member has a key that was seen, or another member's.
abbrev pub KeysDiffer : List String → List Member → Type 0
KeysDiffer seen [] = Unit
KeysDiffer seen (m ∷ ms) = (has_key m.key seen ≡ false) × KeysDiffer (m.key ∷ seen) ms

skip_while-le : (p : ℕ → Bool) (s : Bytes) (pos : ℕ) → pos ≤ skip_while p s pos
skip_while-le p [] pos = omega arith
skip_while-le p (c ∷ s) pos = elim (Bool-cases (p c)) [
  | inl skipped ↦ rw skipped (omega (arith, skip_while-le p s (pos + 1)))
  | inr stays ↦ rw stays (omega arith)
]

skip_comma-le : (content : Bytes) (pos : ℕ) → pos ≤ skip_whitespace_and_comma content pos
unfolding skip_whitespace_and_comma
skip_comma-le content pos = skip_while-le _ (drop pos content) pos

skip_colon-le : (content : Bytes) (pos : ℕ) → pos ≤ skip_whitespace_and_colon content pos
unfolding skip_whitespace_and_colon
skip_colon-le content pos = skip_while-le _ (drop pos content) pos

module _ (decoder : Decoder) (content : Bytes) (laws : IsDecoder decoder content) where
  -- The loop fails, or gives members in their order from an offset to where the decoder stands.
  abbrev IsLoop : ℕ → List String → Members decoder content → Type 0
  IsLoop low seen result =
      ((e : ScanError) × (result ≡ failed e))
      ⊎ ((ms : List Member) × (s : decoder.State) × (result ≡ ok (ms, s))
          × IsOrdered low (decoder.offset s) ms
          × KeysDiffer seen ms
          × (decoder.offset s ≤ length content))

  with_member-IsLoop :
      (low : ℕ) (seen : List String) (m : Member) (result : Members decoder content)
      → low ≤ m.key_start
      → m.key_start ≤ m.value_start
      → m.value_start ≤ m.value_end
      → has_key m.key seen ≡ false
      → IsLoop m.value_end (m.key ∷ seen) result
      → IsLoop low seen (with_member decoder content m result)
  with_member-IsLoop low seen m result a b c new (inl (e, is_failed)) =
      inl (e, ap (with_member decoder content m) is_failed)
  with_member-IsLoop low seen m result a b c new (inr (ms, s, is_ok, ordered, differ, le)) =
      inr
        (m ∷ ms, s, ap (with_member decoder content m) is_ok, (a, b, c, ordered), (new, differ), le)

  scan_value-IsLoop :
      (low : ℕ) (seen : List String) (key : String) (key_start : ℕ) (s : decoder.State)
      (decoded : Option decoder.State) (rest : decoder.State → Members decoder content)
      → decoder.decode s ≡ decoded
      → low ≤ key_start
      → key_start < decoder.offset s
      → has_key key seen ≡ false
      → ((s' : decoder.State)
          → decoder.offset s < decoder.offset s'
          → decoder.offset s' ≤ length content
          → IsLoop (decoder.offset s') (key ∷ seen) (rest s'))
      → IsLoop low seen (scan_value decoder content key key_start s decoded rest)
  scan_value-IsLoop low seen key key_start s none rest e a b new later = inl (bad_value key, refl)
  scan_value-IsLoop low seen key key_start s (some s') rest e a b new later =
      let (moves, within) = laws.decode_moves s s' e in
      let skips = skip_colon-le content (decoder.offset s) in
      with_member-IsLoop low seen
        (record {
          key = key;
          key_start = key_start;
          value_start = skip_whitespace_and_colon content (decoder.offset s);
          value_end = decoder.offset s';
        })
        (rest s') a (omega (arith, b, skips)) (omega (arith, moves)) new
        (later s' (omega (arith, moves, skips)) within)

  scan_key-IsLoop :
      (s : decoder.State) (seen : List String) (r : Read) (s' : decoder.State)
      (rest : List String → decoder.State → Members decoder content)
      → decoder.token s ≡ (r, s')
      → ((key : String) (next : decoder.State)
          → decoder.offset s < decoder.offset next
          → decoder.offset next ≤ length content
          → IsLoop (decoder.offset next) (key ∷ seen) (rest (key ∷ seen) next))
      → IsLoop (decoder.offset s) seen (
          scan_key decoder content seen
            (skip_whitespace_and_comma content (decoder.offset s))
            (r, s')
            rest)
  scan_key-IsLoop s seen (token_read (text_token key)) s' rest e later =
      let (moves, within) = laws.token_moves s s' (text_token key) e in
      let skips = skip_comma-le content (decoder.offset s) in
      elim (Bool-cases (has_key key seen)) [
        | inl twice ↦
            rw twice
              (inl (listed_twice key (skip_whitespace_and_comma content (decoder.offset s)), refl))
        | inr new ↦ rw new (
            scan_value-IsLoop (decoder.offset s) seen key
              (skip_whitespace_and_comma content (decoder.offset s)) s' (decoder.decode s')
              (rest (key ∷ seen)) refl skips moves new
              (λ next after end. later key next (omega (arith, skips, moves, after)) end))
      ]
  scan_key-IsLoop s seen (token_read open_brace) s' rest e later = inl (not_a_key, refl)
  scan_key-IsLoop s seen (token_read close_brace) s' rest e later = inl (not_a_key, refl)
  scan_key-IsLoop s seen (token_read other_token) s' rest e later = inl (not_a_key, refl)
  scan_key-IsLoop s seen end_of_input s' rest e later = inl (decoder_failed, refl)
  scan_key-IsLoop s seen bad_input s' rest e later = inl (decoder_failed, refl)

  scan_members-IsLoop :
      (fuel : ℕ) (seen : List String) (s : decoder.State)
      → decoder.offset s ≤ length content
      → length content < decoder.offset s + fuel
      → IsLoop (decoder.offset s) seen (scan_members decoder content fuel seen s)
  unfolding scan_members
  scan_members-IsLoop zero seen s le enough = absurd (omega arith)
  scan_members-IsLoop (suc fuel) seen s le enough = elim (Bool-cases (decoder.more s)) [
    | inl goes_on ↦ rw goes_on (
        scan_key-IsLoop s seen (decoder.token s).0 (decoder.token s).1
          (scan_members decoder content fuel) refl
          (λ key next after end.
            scan_members-IsLoop fuel (key ∷ seen) next end (omega (arith, enough, after))))
    | inr ends ↦ rw ends (inr ([], s, refl, omega arith, tt, le))
  ]

  widen-IsOrdered :
      (low high higher : ℕ) (ms : List Member)
      → high ≤ higher
      → IsOrdered low high ms
      → IsOrdered low higher ms
  widen-IsOrdered low high higher [] le h = omega (arith, h, le)
  widen-IsOrdered low high higher (m ∷ ms) le (a, b, c, h) =
      (a, b, c, widen-IsOrdered m.value_end high higher ms le h)

  -- A failure, or members in their order between two braces of the text, each with a key of its own.
  abbrev pub IsScanned : Object decoder content → Type 0
  IsScanned result =
      ((e : ScanError) × (result ≡ failed e))
      ⊎ ((ms : List Member) × (brace_open : ℕ) × (brace_close : ℕ) × (result
            ≡ ok (ms, brace_open, brace_close))
          × IsOrdered (brace_open + 1) brace_close ms
          × (brace_close < length content)
          × KeysDiffer [] ms)

  scan_end-IsScanned :
      (ms : List Member) (brace_open brace_close : ℕ) (r : Read × decoder.State)
      → IsOrdered (brace_open + 1) brace_close ms
      → brace_close < length content
      → KeysDiffer [] ms
      → IsScanned (scan_end decoder content ms brace_open brace_close r)
  scan_end-IsScanned ms brace_open brace_close (end_of_input, s) ordered within differ =
      inr (ms, brace_open, brace_close, refl, ordered, within, differ)
  scan_end-IsScanned ms brace_open brace_close (bad_input, s) ordered within differ =
      inl (content_behind (decoder.offset s), refl)
  scan_end-IsScanned ms brace_open brace_close (token_read t, s) ordered within differ =
      inl (content_behind (decoder.offset s), refl)

  scan_close-IsScanned :
      (ms : List Member) (brace_open : ℕ) (s : decoder.State) (r : Read) (s' : decoder.State)
      → decoder.token s ≡ (r, s')
      → IsOrdered (brace_open + 1) (decoder.offset s) ms
      → KeysDiffer [] ms
      → IsScanned (scan_close decoder content ms brace_open (r, s'))
  scan_close-IsScanned ms brace_open s (token_read close_brace) s' e ordered differ =
      let (moves, within) = laws.token_moves s s' close_brace e in
      let skips = skip_comma-le content (decoder.offset s) in
      scan_end-IsScanned ms brace_open (decoder.offset s' - 1) (decoder.token s')
        (widen-IsOrdered (brace_open + 1) (decoder.offset s) (decoder.offset s' - 1) ms
          (omega (arith, moves, skips)) ordered)
        (omega (arith, moves, within)) differ
  scan_close-IsScanned ms brace_open s (token_read open_brace) s' e ordered differ =
      inl (not_closed, refl)
  scan_close-IsScanned ms brace_open s (token_read other_token) s' e ordered differ =
      inl (not_closed, refl)
  scan_close-IsScanned ms brace_open s (token_read (text_token t)) s' e ordered differ =
      inl (not_closed, refl)
  scan_close-IsScanned ms brace_open s end_of_input s' e ordered differ = inl (decoder_failed, refl)
  scan_close-IsScanned ms brace_open s bad_input s' e ordered differ = inl (decoder_failed, refl)

  scan_rest-IsScanned :
      (brace_open low : ℕ) (result : Members decoder content)
      → brace_open + 1 ≡ low
      → IsLoop low [] result
      → IsScanned (scan_rest decoder content brace_open result)
  scan_rest-IsScanned brace_open low result e (inl (error, is_failed)) =
      inl (error, ap (scan_rest decoder content brace_open) is_failed)
  scan_rest-IsScanned brace_open low result e (inr (ms, s, is_ok, ordered, differ, le)) =
      subst (λ (m : Members decoder content). IsScanned (scan_rest decoder content brace_open m))
        (sym is_ok)
        (scan_close-IsScanned ms brace_open s (decoder.token s).0 (decoder.token s).1 refl
          (subst (λ (l : ℕ). IsOrdered l (decoder.offset s) ms) (sym e) ordered) differ)

  scan_open-IsScanned :
      (s : decoder.State) (r : Read) (s' : decoder.State)
      → decoder.token s ≡ (r, s')
      → IsScanned (scan_open decoder content (r, s'))
  unfolding scan_open
  scan_open-IsScanned s (token_read open_brace) s' e =
      let (moves, within) = laws.token_moves s s' open_brace e in
      scan_rest-IsScanned (decoder.offset s' - 1) (decoder.offset s')
        (scan_members decoder content (length content + 1) [] s') (omega (arith, moves))
        (scan_members-IsLoop (length content + 1) [] s' within (omega (arith, moves)))
  scan_open-IsScanned s (token_read close_brace) s' e = inl (not_an_object, refl)
  scan_open-IsScanned s (token_read other_token) s' e = inl (not_an_object, refl)
  scan_open-IsScanned s (token_read (text_token t)) s' e = inl (not_an_object, refl)
  scan_open-IsScanned s end_of_input s' e = inl (decoder_failed, refl)
  scan_open-IsScanned s bad_input s' e = inl (decoder_failed, refl)

  -- With a decoder that ends each token and value within the text and behind what is skipped before
  -- it, scanObject always returns: an error, or the members in their order between the two braces,
  -- which stand in the text, each member with a key of its own.
  pub scan_object-IsScanned : IsScanned (scan_object decoder content)
  unfolding scan_object
  scan_object-IsScanned =
      scan_open-IsScanned decoder.initial (decoder.token decoder.initial).0
        (decoder.token decoder.initial).1 refl
