-- ===== src/Hooks/Words.antt =====
-- internal/hooks/owner.go: `splitCommandWords`, and cmd/agentpulse/settings.go: the quoting of a path
-- in a shell command. A text is a list of code points.
pub mod Quoted
use agentpulse_bridge.Base.{
  ℕ, Bool, true, false, ◌||◌, Option, none, some, List, [], ◌∷◌, ◌++◌, ◌==◌, if◌then◌else◌, any,
  not,
}
use agentpulse_bridge.Base.Text.{Text, codes}

abbrev pub backslash : ℕ
backslash = b'\\'

abbrev pub single_quote : ℕ
single_quote = b'\''

abbrev pub is_quote : ℕ → Bool
is_quote c = c == single_quote || c == b'"'

abbrev pub is_blank : ℕ → Bool
is_blank c = c == b' ' || c == b'\t' || c == b'\n' || c == b'\r'

-- A word that was begun, if there is one, before the words that follow.
abbrev pub flush : Option Text → List Text → List Text
flush none words = words
flush (some word) words = word ∷ words

-- `inWord` and `current` as one value: `none` outside of a word.
abbrev pub with_char : ℕ → Option Text → Option Text
with_char c none = some (c ∷ [])
with_char c (some word) = some (word ++ c ∷ [])

abbrev pub begun : Option Text → Option Text
begun none = some []
begun (some word) = some word

-- Where the loop stands: outside of quotes, inside of quotes of a kind, or behind a backslash.
pub data Mode : Type 0 where
  plain escaped : Mode
  quoted : ℕ → Mode

-- The loop of `splitCommandWords`, with the word read so far.
unfoldable pub split_from : Mode → Option Text → Text → List Text
split_from mode word [] = flush word []
split_from (quoted q) word (c ∷ s) =
    let closed = split_from plain word s in
    let inside = split_from (quoted q) (with_char c word) s in if c == q then closed else inside
split_from escaped word (c ∷ s) = split_from plain (with_char c word) s
split_from plain word (c ∷ s) =
    let escape = split_from escaped word s in
    let quote = split_from (quoted c) (begun word) s in
    let ended = flush word (split_from plain none s) in
    let further = split_from plain (with_char c word) s in
    if c == backslash
    then escape
    else if is_quote c
    then quote
    else if is_blank c
    then ended
    else further

unfoldable pub split_command_words : Text → List Text
unfolding split_from
split_command_words command = split_from plain none command

-- `strings.ReplaceAll` of a single quote by a closed quote, an escaped one and an opened one.
unfoldable pub replace_quotes : Text → Text
replace_quotes [] = []
replace_quotes (c ∷ s) =
    (if c == single_quote
      then single_quote ∷ backslash ∷ single_quote ∷ single_quote ∷ []
      else c ∷ [])
    ++ replace_quotes s

unfoldable pub shell_quote_single : Text → Text
unfolding replace_quotes
shell_quote_single s = single_quote ∷ (replace_quotes s ++ single_quote ∷ [])

abbrev pub special_chars : Text
special_chars = codes " \t\n\r\"'\\$`&|;<>()*?[]{}#~!"

abbrev pub is_special : ℕ → Bool
is_special c = any (λ d. c == d) special_chars

abbrev pub is_empty : Text → Bool
is_empty [] = true
is_empty (c ∷ s) = false

unfoldable pub shell_quote_if_needed : Text → Text
unfolding shell_quote_single
shell_quote_if_needed s = if is_empty s || any is_special s then shell_quote_single s else s

-- `hookCommand`: the command line of the bridge's hooks.
unfoldable pub hook_command : Text → Text
unfolding shell_quote_if_needed
hook_command binary = shell_quote_if_needed binary ++ codes " hook"
