-- ===== src/Pair/Machine.antt =====
-- internal/pair/machine.go: `sanitizeMachineName`. A name is a list of code points; which of them
-- unicode.IsPrint takes is a parameter.
pub mod Named
use agentpulse_bridge.Base.{
  ℕ, ◌+◌, Bool, true, false, ◌&&◌, ◌||◌, not, List, [], ◌∷◌, ◌==◌, ltb, leb, if◌then◌else◌, keep_if,
}
use agentpulse_bridge.Base.Text.{Text, codes, trim_space}

abbrev pub fallback_machine_name : Text
fallback_machine_name = codes "unnamed machine"

abbrev pub max_machine_name_units : ℕ
max_machine_name_units = 64

-- `unicode.ReplacementChar`
abbrev pub replacement_char : ℕ
replacement_char = 0xFFFD

abbrev pub width : ℕ → ℕ
width c = if ltb 0xFFFF c then 2 else 1

-- `len(utf16.Encode(…))`
abbrev pub utf16_length : Text → ℕ
utf16_length [] = 0
utf16_length (c ∷ s) = width c + utf16_length s

-- The loop of `truncateUTF16`, with the units so far.
abbrev pub cut_from : ℕ → Text → ℕ → Text
cut_from units [] limit = []
cut_from units (c ∷ s) limit =
    let rest = cut_from (units + width c) s limit in
    if ltb limit (units + width c) then [] else c ∷ rest

unfoldable pub truncate_utf16 : Text → ℕ → Text
truncate_utf16 s limit = if leb (utf16_length s) limit then s else cut_from 0 s limit

module _ (is_print : ℕ → Bool) where
  abbrev pub is_kept : ℕ → Bool
  is_kept c = not (c == b'/' || c == b'\\') && not (c == replacement_char || not (is_print c))

  abbrev pub or_fallback : Text → Text
  or_fallback [] = fallback_machine_name
  or_fallback (c ∷ s) = truncate_utf16 (c ∷ s) max_machine_name_units

  unfoldable pub sanitize_machine_name : Text → Text
  unfolding truncate_utf16 trim_space
  sanitize_machine_name raw = or_fallback (trim_space (keep_if is_kept raw))
