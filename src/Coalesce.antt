-- ===== src/Coalesce.antt =====
-- internal/coalesce/coalesce.go: `DropStaleActivity`, which shortens a backlog before it is sent.
-- Decoding a line and parsing a time are parameters. An instant is a number of nanoseconds.
pub mod Chains
use agentpulse_bridge.Base.{
  ℕ, ◌+◌, ◌*◌, Bool, true, false, not, ◌&&◌, Option, none, some, String, List, [], ◌∷◌, ltb, leb,
  ◌==◌, str_eq, if◌then◌else◌, Bytes,
}

abbrev pub stale_after : ℕ
stale_after = 10 * 60 * 1000000000

pub record Chain : Type 0 where
  pub session : String
  pub helper : String

pub record Header : Type 0 where
  pub session_id : String
  pub ts : String
  pub event_type : String
  pub subagent : Option String

abbrev pub type_activity : String
type_activity = "activity"

abbrev pub same : Chain → Chain → Bool
same a b = str_eq a.session b.session && str_eq a.helper b.helper

-- `map[chain]int`: the newest binding stands first. A missing key reads as 0.
abbrev pub Last : Type 0
Last = List (Chain × ℕ)

abbrev pub get : Chain → Last → ℕ
get c [] = 0
get c ((d, i) ∷ last) = if same d c then i else get c last

-- `decode` is json.Unmarshal into the header, `parse_time` is time.Parse; `none` is their error.
module _ (decode : Bytes → Option Header) (parse_time : String → Option ℕ) where
  abbrev helper_of : Option String → String
  helper_of none = ""
  helper_of (some id) = id

  abbrev chain_of_header : Option Header → Option Chain
  chain_of_header none = none
  chain_of_header (some h) =
      if str_eq h.session_id ""
      then none
      else some (record { session = h.session_id; helper = helper_of h.subagent })

  -- The line's chain, unless it cannot be read or has no session.
  unfoldable pub chain_of : Bytes → Option Chain
  chain_of line = chain_of_header (decode line)

  abbrev is_old : ℕ → Option ℕ → Bool
  is_old now none = false
  is_old now (some ts) = not (leb now (ts + stale_after))

  abbrev is_stale_header : ℕ → Option Header → Bool
  is_stale_header now none = false
  is_stale_header now (some h) =
      not (str_eq h.session_id "")
      && str_eq h.event_type type_activity
      && is_old now (parse_time h.ts)

  -- An `activity` line older than `stale_after` that can be read.
  unfoldable pub is_stale : ℕ → Bytes → Bool
  is_stale now line = is_stale_header now (decode line)

  abbrev pub note : ℕ → Option Chain → Last → Last
  note i none last = last
  note i (some c) last = (c, i) ∷ last

  abbrev pub mark : ℕ → Bytes → Option Chain
  mark now line = if is_stale now line then chain_of line else none

  -- The first loop: the marks of the lines, and the index of the last line of each chain.
  unfoldable pub scan : ℕ → ℕ → Last → List Bytes → List (Option Chain) × Last
  scan now i last [] = ([], last)
  scan now i last (l ∷ ls) =
      let (marks, final) = scan now (i + 1) (note i (chain_of l) last) ls in
      (mark now l ∷ marks, final)

  abbrev pub is_dropped : Last → ℕ → Option Chain → Bool
  is_dropped final i none = false
  is_dropped final i (some c) = not (get c final == i)

  -- The second loop.
  unfoldable pub sweep : Last → ℕ → List (Option Chain) → List Bytes → List Bytes
  sweep final i (m ∷ marks) (l ∷ ls) =
      let rest = sweep final (i + 1) marks ls in if is_dropped final i m then rest else l ∷ rest
  sweep final i _ _ = []

  unfoldable pub drop_stale_activity : List Bytes → ℕ → List Bytes
  unfolding scan sweep
  drop_stale_activity lines now =
      let (marks, final) = scan now 0 [] lines in sweep final 0 marks lines
