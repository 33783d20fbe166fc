-- ===== src/Hook/Scratch.antt =====
-- internal/scratch/scratch.go: a session's state on disk, under a file name made of the session's id.
use mathlib.Core.Bool.{false≢true}
use agentpulse_bridge.Base.{
  ℕ, suc, zero, ◌≡◌, refl, ap, inl, inr, true, ◌≤◌, ◌<◌, arith, length, ◌&&◌, Bool-cases, Bool,
  ◌||◌, Option, none, some, String, [], ◌∷◌, ◌==◌, if◌then◌else◌, map, take,
}
use agentpulse_bridge.Base.Text.{Text, codes, is_digit, is_lower, is_upper, same_text}
use agentpulse_bridge.Classify.State.{SessionState, new_session_state}

abbrev pub max_session_id_len : ℕ
max_session_id_len = 128

abbrev pub is_safe : ℕ → Bool
is_safe c = is_lower c || is_upper c || is_digit c || c == b'_' || c == b'-'

abbrev pub or_unknown : Text → Text
or_unknown [] = codes "unknown"
or_unknown (c ∷ s) = c ∷ s

unfoldable pub sanitize_session_id : String → Text
sanitize_session_id session_id =
    or_unknown
      (take max_session_id_len (map (λ c. if is_safe c then c else b'_') (codes session_id)))

-- The readable files of the directory, by their names without the extension.
abbrev pub Sessions : Type 0
Sessions = Text → Option SessionState

abbrev pub or_new : Option SessionState → SessionState
or_new none = new_session_state
or_new (some s) = s

unfoldable pub load : Text → Sessions → SessionState
load key sessions = or_new (sessions key)

unfoldable pub store : Text → Option SessionState → Sessions → Sessions
store key s sessions other = if same_text key other then s else sessions other

abbrev pub all_safe : Text → Bool
all_safe [] = true
all_safe (c ∷ s) = is_safe c && all_safe s

-- ^[A-Za-z0-9_-]{1,128}$
abbrev pub IsSessionId : String → Type 0
IsSessionId session_id =
    (all_safe (codes session_id) ≡ true)
    × (0 < length (codes session_id))
    × (length (codes session_id) ≤ 128)

map-safe : (s : Text) → all_safe s ≡ true → map (λ c. if is_safe c then c else b'_') s ≡ s
map-safe [] h = refl
map-safe (c ∷ s) h = elim (Bool-cases (is_safe c)) [
  | inl safe ↦ rw safe (ap (◌∷◌ c) (map-safe s (rw safe at h)))
  | inr other ↦ absurd (false≢true (rw other at h))
]

take-all : (n : ℕ) (s : Text) → length s ≤ n → take n s ≡ s
take-all zero [] h = refl
take-all zero (c ∷ s) h = absurd (omega arith)
take-all (suc n) [] h = refl
take-all (suc n) (c ∷ s) h = ap (◌∷◌ c) (take-all n s (omega arith))

or_unknown-nonempty : (s : Text) → 0 < length s → or_unknown s ≡ s
or_unknown-nonempty [] h = absurd (omega arith)
or_unknown-nonempty (c ∷ s) h = refl

-- An id of the schema's form is its own file name.
pub sanitize_session_id-IsSessionId :
    (session_id : String)
    → IsSessionId session_id
    → sanitize_session_id session_id ≡ codes session_id
unfolding sanitize_session_id
sanitize_session_id-IsSessionId session_id (safe, some_text, short) =
    rw (map-safe (codes session_id) safe, take-all 128 (codes session_id) short)
      (or_unknown-nonempty (codes session_id) some_text)
