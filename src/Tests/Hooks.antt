-- ===== src/Tests/Hooks.antt =====
-- Runs of internal/hooks.
use agentpulse_bridge.Base.{
  ◌≡◌, refl, true, false, some, [], ◌∷◌, ◌++◌, map, keep_if, All, String, str_eq,
}
use agentpulse_bridge.Base.Text.{Text, codes}
use agentpulse_bridge.Base.Dict.{lookup}
use agentpulse_bridge.Hooks.Words.{split_command_words, hook_command}
use agentpulse_bridge.Hooks.Words.Quoted.{split_command_words-hook_command}
use agentpulse_bridge.Hooks.Owner.{Owner, new_owner, owns, names_bridge, is_own_assignment}
use agentpulse_bridge.Hooks.Owner.Laws.{owns-hook_command}
use agentpulse_bridge.Hooks.Merge.{Entry, merge_event, OrderedRawObject}
use agentpulse_bridge.Hooks.Merge.Events.{install_events, uninstall_events}
use agentpulse_bridge.Hooks.Merge.Laws.{entries_at, merge_event_lem, new_entries}
use agentpulse_bridge.Hooks.Merge.Laws.Loops.{foreign_at, IsOwnEntry}
use agentpulse_bridge.Hooks.Merge.Laws.Total.{IsArray}
use agentpulse_bridge.Hooks.Merge.Laws.Uninstall.{uninstall-install, uninstall_events_lem}
use agentpulse_bridge.Hooks.Merge.Laws.Commands.{commands, owned_at, owned_at-merge_event}
use agentpulse_bridge.Hooks.Merge.Compact.{is_foreign}
use agentpulse_bridge.Hooks.Merge.Entries.{entries_in_groups}
use agentpulse_bridge.Tests.Json.{
  Value, values, values_laws, text, array_end, object_end, element, member, hook_value,
}

abbrev odd_path : Text
odd_path = codes "/Users/O'Brien/my apps/agentpulse"

split_command_words-hook_command_example :
    split_command_words (hook_command odd_path) ≡ odd_path ∷ codes "hook" ∷ []
split_command_words-hook_command_example = split_command_words-hook_command odd_path

hook_command_runs : hook_command odd_path ≡ codes "'/Users/O'\\''Brien/my apps/agentpulse' hook"
unfolding hook_command
hook_command_runs = refl

owns-hook_command_example :
    owns (new_owner (codes "/opt/agentpulse")) (hook_command odd_path)
    ≡ names_bridge (new_owner (codes "/opt/agentpulse")) odd_path
owns-hook_command_example = owns-hook_command (new_owner (codes "/opt/agentpulse")) odd_path

-- A bridge that was moved, a wrapper with a similar name, and the recording's prefix.
owns_runs :
    map (owns (new_owner (codes "/opt/agentpulse"))) (
      codes "/usr/bin/agentpulse hook"
      ∷ codes "/usr/bin/my-agentpulse hook"
      ∷ codes "agentpulse status"
      ∷ codes "env AGENTPULSE_RECORD_DIR=/tmp /opt/agentpulse hook"
      ∷ codes "env OTHER=1 /opt/agentpulse hook"
      ∷ [])
    ≡ true ∷ false ∷ false ∷ true ∷ false ∷ []
unfolding owns is_own_assignment
owns_runs = refl

abbrev owner : Owner
owner = new_owner (codes "/opt/agentpulse")

abbrev own_entry : Entry
own_entry = record {
  event = "Stop";
  matcher = "";
  command = codes "/opt/agentpulse hook";
  timeout = 10;
}

own_entry-IsOwnEntry : IsOwnEntry values values_laws owner own_entry
unfolding owns
own_entry-IsOwnEntry = (refl, refl)

-- A group that the bridge shares with another tool.
abbrev shared_group : Value
shared_group =
    member "hooks"
      (element (hook_value (codes "make fmt") 5)
        (element (hook_value (codes "agentpulse hook") 10) array_end))
      object_end

abbrev settings : OrderedRawObject values
settings = ("Stop", element shared_group array_end) ∷ []

settings-IsArray : All (IsArray values) settings
settings-IsArray = ((shared_group ∷ [], refl), tt)

entries_runs :
    entries_at values "Stop" settings
    ≡ hook_value (codes "make fmt") 5 ∷ hook_value (codes "agentpulse hook") 10 ∷ []
unfolding entries_at entries_in_groups
entries_runs = refl

abbrev merged : OrderedRawObject values
merged =
    (
      "Stop",
      element (member "hooks" (element (hook_value (codes "make fmt") 5) array_end) object_end) (
          element
            (member "matcher" (text []) (
              member "hooks" (element (hook_value (codes "/opt/agentpulse hook") 10) array_end)
                object_end))
            array_end),
    )
    ∷ []

merged_settings : merge_event values owner "Stop" (own_entry ∷ []) settings ≡ some merged
unfolding merge_event owns
merged_settings = refl

owned_at-merge_event_example :
    owned_at values owner "Stop" merged ≡ some (commands (own_entry ∷ []))
owned_at-merge_event_example =
    owned_at-merge_event values values_laws owner "Stop" (own_entry ∷ []) settings merged
      (own_entry-IsOwnEntry, tt) merged_settings

merge_event_lem_example :
    (map values_laws.compact (entries_at values "Stop" merged)
      ≡ map values_laws.compact
          (keep_if (is_foreign values values_laws owner) (entries_at values "Stop" settings))
        ++ map values_laws.compact (new_entries values values_laws owner (own_entry ∷ [])))
    × ((key : String) → str_eq "Stop" key ≡ false → lookup key merged ≡ lookup key settings)
merge_event_lem_example =
    merge_event_lem values values_laws owner "Stop" (own_entry ∷ []) settings merged merged_settings

uninstall-install_example :
    (installed : OrderedRawObject values) × (uninstalled : OrderedRawObject values)
    × (install_events values owner (own_entry ∷ []) settings ≡ some installed)
    × (uninstall_events values owner installed ≡ some uninstalled)
    × ((key : String)
        → map values_laws.compact (entries_at values key uninstalled)
          ≡ foreign_at values values_laws owner key settings)
uninstall-install_example =
    uninstall-install values values_laws owner (own_entry ∷ []) settings (own_entry-IsOwnEntry, tt)
      settings-IsArray

abbrev cleaned : OrderedRawObject values
cleaned =
    (
      "Stop",
      element (member "hooks" (element (hook_value (codes "make fmt") 5) array_end) object_end)
          array_end,
    )
    ∷ []

cleaned_settings : uninstall_events values owner settings ≡ some cleaned
unfolding uninstall_events owns
cleaned_settings = refl

uninstall_events_lem_example :
    map values_laws.compact (entries_at values "Stop" cleaned)
    ≡ foreign_at values values_laws owner "Stop" settings
uninstall_events_lem_example =
    uninstall_events_lem values values_laws owner "Stop" settings cleaned cleaned_settings
