-- ===== src/Pair/Machine/Named.antt =====
-- internal/pair/machine.go: the name that is sent fits the relay's schema.
use mathlib.Core.List.{reverse, reverse-cons}
use agentpulse_bridge.Base.{
  ℕ, ◌+◌, ◌≤◌, ◌<◌, ◌≡◌, inl, inr, Bool, true, [], ◌∷◌, ltb, leb, keep_if, length, arith,
  Bool-cases, All, All-append, leb→le, ltb→le,
}
use agentpulse_bridge.Base.Text.{Text, is_space, trim_left, trim_space}
use agentpulse_bridge.Pair.Machine.{
  width, utf16_length, cut_from, truncate_utf16, is_kept, or_fallback, sanitize_machine_name,
  fallback_machine_name,
}

cut_from-le :
    (units : ℕ) (s : Text) (limit : ℕ)
    → units ≤ limit
    → units + utf16_length (cut_from units s limit) ≤ limit
cut_from-le units [] limit h = omega arith
cut_from-le units (c ∷ s) limit h = elim (Bool-cases (ltb limit (units + width c))) [
  | inl over ↦ rw over (omega arith)
  | inr fits ↦ rw fits (
      omega (
        arith,
        cut_from-le (units + width c) s limit (omega (arith, ltb→le limit (units + width c) fits)),
      ))
]

module _ (P : ℕ → Type 0) where
  All-reverse : (s : Text) → All P s → All P (reverse s)
  All-reverse [] h = h
  All-reverse (c ∷ s) h =
      rw (reverse-cons c s) (All-append P (reverse s) (c ∷ []) (All-reverse s h.1) (h.0, tt))

  All-trim_left : (s : Text) → All P s → All P (trim_left s)
  All-trim_left [] h = h
  All-trim_left (c ∷ s) h = elim (Bool-cases (is_space c)) [
    | inl blank ↦ rw blank (All-trim_left s h.1)
    | inr other ↦ rw other (h.0, h.1)
  ]

  All-trim_space : (s : Text) → All P s → All P (trim_space s)
  unfolding trim_space
  All-trim_space s h =
      All-reverse (trim_left (reverse (trim_left s)))
        (All-trim_left (reverse (trim_left s)) (All-reverse (trim_left s) (All-trim_left s h)))

  All-cut_from : (units : ℕ) (s : Text) (limit : ℕ) → All P s → All P (cut_from units s limit)
  All-cut_from units [] limit h = h
  All-cut_from units (c ∷ s) limit h = elim (Bool-cases (ltb limit (units + width c))) [
    | inl over ↦ rw over tt
    | inr fits ↦ rw fits (h.0, All-cut_from (units + width c) s limit h.1)
  ]

  All-truncate_utf16 : (s : Text) (limit : ℕ) → All P s → All P (truncate_utf16 s limit)
  unfolding truncate_utf16
  All-truncate_utf16 s limit h = elim (Bool-cases (leb (utf16_length s) limit)) [
    | inl whole ↦ rw whole h
    | inr cut ↦ rw cut (All-cut_from 0 s limit h)
  ]

truncate_utf16-le : (s : Text) (limit : ℕ) → utf16_length (truncate_utf16 s limit) ≤ limit
unfolding truncate_utf16
truncate_utf16-le s limit = elim (Bool-cases (leb (utf16_length s) limit)) [
  | inl whole ↦ rw whole (leb→le (utf16_length s) limit whole)
  | inr cut ↦ rw cut (omega (arith, cut_from-le 0 s limit (omega arith)))
]

truncate_utf16-some : (c : ℕ) (s : Text) → 0 < length (truncate_utf16 (c ∷ s) 64)
unfolding truncate_utf16
truncate_utf16-some c s = elim (Bool-cases (leb (utf16_length (c ∷ s)) 64)) [
  | inl whole ↦ rw whole (omega arith)
  | inr cut ↦ rw cut (ground arith)
]

module _ (is_print : ℕ → Bool) where
  keeps_kept :
      (s : Text) → All (λ (c : ℕ). is_kept is_print c ≡ true) (keep_if (is_kept is_print) s)
  keeps_kept [] = tt
  keeps_kept (c ∷ s) = elim (Bool-cases (is_kept is_print c)) [
    | inl kept ↦ rw kept (kept, keeps_kept s)
    | inr dropped ↦ rw dropped (keeps_kept s)
  ]

  -- At least one character, at most 64 units of UTF-16, and all of them printable and no separator.
  pub record IsMachineName (name : Text) : Type 0 where
    pub some_text : 0 < length name
    pub short : utf16_length name ≤ 64
    pub all_kept : All (λ (c : ℕ). is_kept is_print c ≡ true) name

  -- Whatever the host is called, the machine's name has a character, at most 64 units of UTF-16, no
  -- path separator and no character that is not printable, if the fallback's characters are
  -- printable.
  pub sanitize_machine_name-IsMachineName :
      (raw : Text)
      → All (λ (c : ℕ). is_kept is_print c ≡ true) fallback_machine_name
      → IsMachineName (sanitize_machine_name is_print raw)
  unfolding sanitize_machine_name
  sanitize_machine_name-IsMachineName raw fallback =
      of_trimmed (trim_space (keep_if (is_kept is_print) raw)) (
        All-trim_space (λ (c : ℕ). is_kept is_print c ≡ true) (keep_if (is_kept is_print) raw)
          (keeps_kept raw))
    where
      of_trimmed :
          (s : Text)
          → All (λ (c : ℕ). is_kept is_print c ≡ true) s
          → IsMachineName (or_fallback is_print s)
      of_trimmed [] h = record { some_text = omega arith; short = omega arith; all_kept = fallback }
      of_trimmed (c ∷ s) h = record {
        some_text = truncate_utf16-some c s;
        short = truncate_utf16-le (c ∷ s) 64;
        all_kept = All-truncate_utf16 (λ (d : ℕ). is_kept is_print d ≡ true) (c ∷ s) 64 h;
      }
