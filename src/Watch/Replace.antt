-- ===== src/Watch/Replace.antt =====
-- internal/watch/watch.go: `ApplyRelayList` replaces the relay's half and keeps the local half.
use agentpulse_bridge.Base.{◌≡◌, ◌⊎◌, Bool, Option, none, some, String}
use mathlib.Core.Option
use agentpulse_bridge.Base.Ints.{IsLess}
use agentpulse_bridge.Base.Dict.{Dict, lookup}
use agentpulse_bridge.Relay.Types
use agentpulse_bridge.Watch.{ProjectEntry, File, version, projects_of, list_of}

-- The local entry under each key, as a function of the key.
abbrev pub entry : File → String → Option ProjectEntry
entry f k = lookup k (projects_of f.watch_list)

-- What stands under a key, from what stood there and from what the relay's list says of it: nothing
-- that is not in the list, its flag, and the name and the last-seen time of old.
abbrev pub IsMerged : Option ProjectEntry → Option Bool → Option ProjectEntry → Type 0
IsMerged old none new = new ≡ none
IsMerged none (some w) new =
    new ≡ some (record { watched = w; display_name = ""; last_project_seen_at = "" })
IsMerged (some e) (some w) new =
    new
    ≡ some (record {
      watched = w;
      display_name = e.display_name;
      last_project_seen_at = e.last_project_seen_at;
    })

-- A file after a list was applied.
pub record IsReplaced (f f' : File) (rl : Types.WatchList) : Type 0 where
  pub newer : (f.watch_list ≡ none) ⊎ IsLess (version f) rl.version
  pub at_version : version f' ≡ rl.version
  pub new_projects : (list_of f'.watch_list).watch_new_projects ≡ rl.watch_new_projects
  pub settings : f'.settings ≡ f.settings
  pub entries : (k : String) → IsMerged (entry f k) (lookup k rl.projects) (entry f' k)
