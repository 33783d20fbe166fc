-- ===== src/Spool/Lines.antt =====
-- internal/spool/spool.go: `splitLines`, `countLines` and the bytes that `writeLine` writes.
use agentpulse_bridge.Base.{
  ℕ, ◌<◌, ◌^◌, ◌≡◌, ◌≢◌, Bool, true, false, not, Option, none, some, List, [], ◌∷◌, ◌++◌, leb, ◌==◌,
  if◌then◌else◌, length, any, keep_if, All, Bytes,
}

abbrev pub newline : ℕ
newline = b'\n'

abbrev pub carriage_return : ℕ
carriage_return = b'\r'

-- The longest line, plus one, that the scanner of `countLines` accepts.
abbrev pub scan_buffer_cap : ℕ
scan_buffer_cap = 2 ^ 20

abbrev pub is_empty : Bytes → Bool
is_empty [] = true
is_empty (c ∷ cs) = false

abbrev push_front : ℕ → List Bytes → List Bytes
push_front c [] = (c ∷ []) ∷ []
push_front c (l ∷ ls) = (c ∷ l) ∷ ls

-- `bytes.Split(data, "\n")`
unfoldable pub split : Bytes → List Bytes
split [] = [] ∷ []
split (c ∷ cs) = let rest = split cs in if c == newline then [] ∷ rest else push_front c rest

unfoldable pub split_lines : Bytes → List Bytes
unfolding split
split_lines content = keep_if (λ l. not (is_empty l)) (split content)

-- What `bufio.ScanLines` takes off the end of a line.
abbrev pub drop_cr : Bytes → Bytes
drop_cr [] = []
drop_cr (c ∷ []) = if c == carriage_return then [] else c ∷ []
drop_cr (c ∷ d ∷ l) = c ∷ drop_cr (d ∷ l)

-- `none` is the scanner's error on a line that does not fit its buffer.
unfoldable pub count_lines : Bytes → Option ℕ
unfolding split
count_lines content =
    if any (λ l. leb scan_buffer_cap (length l)) (split content)
    then none
    else some (length (keep_if (λ l. not (is_empty (drop_cr l))) (split content)))

abbrev pub line_bytes : Bytes → Bytes
line_bytes line = line ++ newline ∷ []

-- A file that holds the given lines, each ended by its newline.
unfoldable pub encode : List Bytes → Bytes
encode [] = []
encode (l ∷ ls) = line_bytes l ++ encode ls

-- A byte string that is one event: no newline in it, neither empty nor a lone carriage return, and
-- within the scanner's buffer. The JSON text of an object is such a line.
pub record IsLine (l : Bytes) : Type 0 where
  pub no_newline : All (λ c. c ≢ newline) l
  pub fits : length l < scan_buffer_cap
  pub counted : is_empty (drop_cr l) ≡ false
