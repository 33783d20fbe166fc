-- ===== src/Spool/Queue.antt =====
-- internal/spool/spool.go: `Append`, `Depth`, `Drain` and `rewrite`.
use agentpulse_bridge.Base.{
  ℕ, ◌*◌, ◌+◌, ◌-◌, Bool, not, ◌||◌, Option, none, some, List, [], ◌∷◌, ◌++◌, ltb, leb,
  if◌then◌else◌, length, drop, Bytes,
}
use agentpulse_bridge.Spool.Io.{
  Faults, Result, ok, err, mkdir_failed, open_failed, lock_failed, scan_failed, seek_failed,
  read_failed, truncate_failed, Io, ◌>>=◌, ◌>>◌, pure, fail, attempt, get_content, put_content,
  write,
}
use agentpulse_bridge.Spool.Lines.{split_lines, count_lines, line_bytes}

abbrev pub cap : ℕ
cap = 500

abbrev pub max_line_bytes : ℕ
max_line_bytes = 8 * 1024

unfoldable pub write_line : Faults → ℕ → Bytes → Io (Unit {0})
write_line io k line = write io k (line_bytes line)

-- The loops that write one line after another.
unfoldable pub write_lines : Faults → ℕ → List Bytes → Io (Unit {0})
unfolding write_line
write_lines io k [] = pure tt
write_lines io k (l ∷ ls) = do write_line io k l; write_lines io (k + 1) ls

-- `os.OpenFile` with `O_CREATE`
abbrev pub opened : Option Bytes → Bytes
opened none = []
opened (some content) = content

abbrev or_scan_failed : Option ℕ → Io ℕ
or_scan_failed none = fail scan_failed
or_scan_failed (some n) = pure n

abbrev pub count_in_file : Faults → Io ℕ
count_in_file io = do
  attempt io.scan scan_failed
  content ← get_content
  or_scan_failed (count_lines content)

-- The eviction path: the oldest lines make room for the new one.
unfoldable pub append_evicting : Faults → Bytes → Io (Unit {0})
unfolding write_lines write_line
append_evicting io line = do
  attempt io.seek_start seek_failed
  attempt io.read read_failed
  content ← get_content
  let lines = split_lines content
  let kept = drop (length lines - (cap - 1)) lines
  attempt io.truncate truncate_failed
  put_content []
  attempt io.rewind seek_failed
  write_lines io 0 kept
  write_line io (length kept) line

append_locked : Faults → Bytes → Io (Unit {0})
append_locked io line = do
  attempt io.lock lock_failed
  count ← count_in_file io
  if ltb count cap
      then (do attempt io.seek_end seek_failed; write_line io 0 line)
      else append_evicting io line

-- `none` is a missing file. Before the file is open nothing on disk changes.
abbrev pub with_file : {A : Type 0} → Faults → Option Bytes → Io A → Option Bytes × Result A
with_file io file body =
    if io.mkdir
    then (file, err mkdir_failed)
    else if io.open_file
    then (file, err open_failed)
    else let (content, r) = body (opened file) in (some content, r)

unfoldable pub append : Faults → Option Bytes → Bytes → Option Bytes × Result (Unit {0})
unfolding append_locked
append io file line = with_file io file (append_locked io line)

-- `Depth` neither locks nor creates the file; a missing one holds nothing.
unfoldable pub depth : Faults → Option Bytes → Result ℕ
depth io none = ok 0
depth io (some content) = if io.open_file then err open_failed else (count_in_file io content).1

pub record Drained : Type 0 where
  pub batch : List Bytes
  pub discarded : ℕ
  pub raw_count : ℕ

-- `json.Valid` is the parameter.
module _ (valid : Bytes → Bool) where
  abbrev pub is_malformed : Bytes → Bool
  is_malformed l = ltb max_line_bytes (length l) || not (valid l)

  -- The loop over the raw lines, in order.
  unfoldable pub sort_out : List Bytes → Drained
  sort_out [] = record { batch = []; discarded = 0; raw_count = 0 }
  sort_out (l ∷ ls) =
      let rest = sort_out ls in
      if is_malformed l
      then record rest { discarded = rest.discarded + 1; raw_count = rest.raw_count + 1 }
      else record rest { batch = l ∷ rest.batch; raw_count = rest.raw_count + 1 }

  drain_locked : Faults → Io Drained
  unfolding sort_out
  drain_locked io = do
    attempt io.lock lock_failed
    attempt io.read read_failed
    content ← get_content
    pure (sort_out (split_lines content))

  unfoldable pub drain : Faults → Option Bytes → Option Bytes × Result Drained
  unfolding drain_locked
  drain io file = with_file io file (drain_locked io)

-- What came after the drained lines, or all of the file if it is shorter than it was.
abbrev pub appended_since : ℕ → List Bytes → List Bytes
appended_since raw_count current =
    if leb raw_count (length current) then drop raw_count current else current

abbrev pub clamp : List Bytes → List Bytes
clamp lines = drop (length lines - cap) lines

rewrite_locked : Faults → ℕ → List Bytes → Io (Unit {0})
unfolding write_lines
rewrite_locked io raw_count keep = do
  attempt io.lock lock_failed
  attempt io.read read_failed
  content ← get_content
  let final = clamp (keep ++ appended_since raw_count (split_lines content))
  attempt io.truncate truncate_failed
  put_content []
  attempt io.rewind seek_failed
  write_lines io 0 final

-- `Drain`'s commit closure is `rewrite` at the drained `raw_count`.
unfoldable pub rewrite : Faults → Option Bytes → ℕ → List Bytes → Option Bytes × Result (Unit {0})
unfolding rewrite_locked
rewrite io file raw_count keep = with_file io file (rewrite_locked io raw_count keep)
