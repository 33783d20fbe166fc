-- ===== src/Hooks/Merge/Events.antt =====
-- internal/hooks/hooks.go: the grouping of `plan`, splice.go: the loops over the events, and
-- installed.go: the loop of `InstalledCommands`.
use agentpulse_bridge.Base.{Option, none, some, List, [], ◌∷◌, ◌++◌, String, map}
use agentpulse_bridge.Base.Options.{◌>>=◌}
use agentpulse_bridge.Base.Text.{Text}
use agentpulse_bridge.Base.Dict.{Dict, lookup, insert}
use agentpulse_bridge.Hooks.Owner.{Owner}
use agentpulse_bridge.Hooks.Merge.{
  Json, Entry, OrderedRawObject, merge_event, owned_commands_in_event,
}

abbrev pub append_entry : Option (List Entry) → Entry → List Entry
append_entry none e = e ∷ []
append_entry (some es) e = es ++ e ∷ []

-- `byEvent` and `eventOrder`: the entries under their events, in the order of the first ones.
unfoldable pub by_event : List Entry → Dict (List Entry) → Dict (List Entry)
unfolding lookup insert
by_event [] groups = groups
by_event (e ∷ es) groups =
    by_event es (insert e.event (append_entry (lookup e.event groups) e) groups)

module _ (json : Json) (owner : Owner) where
  -- The events in turn; the first one whose value is no array ends the loop.
  unfoldable pub merge_events :
      Dict (List Entry) → OrderedRawObject json → Option (OrderedRawObject json)
  unfolding merge_event
  merge_events [] object = some object
  merge_events ((event, wanted) ∷ events) object = do
    merged ← merge_event json owner event wanted object
    merge_events events merged

  -- `append([]string{}, hooksObj.keys...)` with nothing wanted.
  abbrev pub each_unwanted : OrderedRawObject json → Dict (List Entry)
  each_unwanted object = map (λ (member : String × json.Raw). (member.0, [])) object

  unfoldable pub install_events :
      List Entry → OrderedRawObject json → Option (OrderedRawObject json)
  unfolding merge_events by_event
  install_events entries object = merge_events (by_event entries []) object

  unfoldable pub uninstall_events : OrderedRawObject json → Option (OrderedRawObject json)
  unfolding merge_events
  uninstall_events object = merge_events (each_unwanted object) object

  abbrev pub with_owned : String → List Text → Dict (List Text) → Dict (List Text)
  with_owned event [] result = result
  with_owned event (c ∷ cs) result = (event, c ∷ cs) ∷ result

  -- `InstalledCommands` of the "hooks" member.
  unfoldable pub installed_commands : OrderedRawObject json → Option (Dict (List Text))
  unfolding owned_commands_in_event
  installed_commands [] = some []
  installed_commands ((event, raw) ∷ object) = do
    owned ← owned_commands_in_event json owner raw
    result ← installed_commands object
    some (with_owned event owned result)
