-- ===== src/Watch.antt =====
-- internal/watch/watch.go: the local watch list, what a fresher relay list does to it, and whether a
-- classified event is spooled, dropped or downgraded.
-- The clock's text form is a parameter: `parse` and `format` of RFC 3339 times.
pub mod Replace
pub mod Throttle
use agentpulse_bridge.Base.{
  ℕ, ◌+◌, ◌*◌, Bool, true, false, Option, none, some, String, List, [], ◌∷◌, map, ltb, leb, str_eq,
  if◌then◌else◌,
}
use agentpulse_bridge.Base.Text.{ℤ, pos}
use agentpulse_bridge.Base.Ints.{int_lt}
use agentpulse_bridge.Base.Dict.{Dict, lookup, insert}
use agentpulse_bridge.Relay.Types.{Settings}
use agentpulse_bridge.Relay.Types

abbrev pub project_seen_throttle : ℕ
project_seen_throttle = 6 * 60 * 60 * 1000000000

pub record ProjectEntry : Type 0 where
  pub watched : Bool
  pub display_name : String
  pub last_project_seen_at : String

pub record WatchedProjects : Type 0 where
  pub version : ℤ
  pub watch_new_projects : Bool
  pub projects : Dict ProjectEntry

pub record File : Type 0 where
  pub watch_list : Option WatchedProjects
  pub settings : Option Settings

pub data Decision : Type 0 where
  spool drop emit_project_seen : Decision

unfoldable pub version : File → ℤ
version f = elim f.watch_list [ none ↦ pos 0 | some wl ↦ wl.version ]

-- The relay's half of an entry with the local half of the one that stood under its key.
abbrev pub carry : Bool → Option ProjectEntry → ProjectEntry
carry watched none = record { watched = watched; display_name = ""; last_project_seen_at = "" }
carry watched (some old) = record old { watched = watched }

abbrev pub carry_all : Dict ProjectEntry → Dict Bool → Dict ProjectEntry
carry_all prev [] = []
carry_all prev ((hash, watched) ∷ rest) =
    (hash, carry watched (lookup hash prev)) ∷ carry_all prev rest

abbrev pub projects_of : Option WatchedProjects → Dict ProjectEntry
projects_of none = []
projects_of (some wl) = wl.projects

abbrev pub is_newer : Types.WatchList → Option WatchedProjects → Bool
is_newer rl none = true
is_newer rl (some wl) = int_lt wl.version rl.version

abbrev pub replaced : Types.WatchList → Option WatchedProjects → WatchedProjects
replaced rl old = record {
  version = rl.version;
  watch_new_projects = rl.watch_new_projects;
  projects = carry_all (projects_of old) rl.projects;
}

-- The new file, and whether the list was applied.
unfoldable pub apply_relay_list : Option Types.WatchList → File → File × Bool
apply_relay_list none f = (f, false)
apply_relay_list (some rl) f =
    if is_newer rl f.watch_list
    then (record f { watch_list = some (replaced rl f.watch_list) }, true)
    else (f, false)

abbrev pub list_of : Option WatchedProjects → WatchedProjects
list_of none = record { version = pos 0; watch_new_projects = true; projects = [] }
list_of (some wl) = wl

module _ (parse : String → Option ℕ) (format : ℕ → String) where
  abbrev seen_within : Option ℕ → ℕ → Bool
  seen_within none now = false
  seen_within (some t) now = ltb now (t + project_seen_throttle)

  unfoldable pub recently_seen : String → ℕ → Bool
  recently_seen raw now = if str_eq raw "" then false else seen_within (parse raw) now

  abbrev pub is_watched : WatchedProjects → Option ProjectEntry → Bool
  is_watched wl none = wl.watch_new_projects
  is_watched wl (some rec) = rec.watched

  abbrev pub is_recent : Option ProjectEntry → ℕ → Bool
  is_recent none now = false
  is_recent (some rec) now = recently_seen rec.last_project_seen_at now

  abbrev pub seen : String → ℕ → Bool → ProjectEntry
  seen name now watched = record {
    watched = watched;
    display_name = name;
    last_project_seen_at = format now;
  }

  abbrev pub with_entry : File → WatchedProjects → String → ProjectEntry → File
  with_entry f wl key e = record f {
    watch_list = some (record wl { projects = insert key e wl.projects });
  }

  decide_entry :
      File → WatchedProjects → Option ProjectEntry → String → String → ℕ → File × Decision
  unfolding recently_seen
  decide_entry f wl rec key name now =
      let marked = with_entry f wl key (seen name now (is_watched wl rec)) in
      if is_watched wl rec
      then (marked, spool)
      else if is_recent rec now
      then (record f { watch_list = some wl }, drop)
      else (marked, emit_project_seen)

  unfoldable pub decide : File → String → String → ℕ → File × Decision
  unfolding decide_entry
  decide f key name now =
      let wl = list_of f.watch_list in decide_entry f wl (lookup key wl.projects) key name now
