-- ===== src/Hooks/Plan.antt =====
-- internal/hooks/hooks.go: `plan`, with spliceHooksInto and buildFromScratch of splice.go, and the
-- entries of cmd/agentpulse/settings.go.
pub mod Edits
use agentpulse_bridge.Base.{
  ℕ, Bool, true, false, Option, none, some, String, List, [], ◌∷◌, ◌++◌, ◌-◌, if◌then◌else◌, take,
  drop, not, map, Bytes,
}
use agentpulse_bridge.Base.Text.{Text, codes, strip_prefix, same_text}
use agentpulse_bridge.Hooks.Owner.{Owner}
use agentpulse_bridge.Hooks.Merge.{Json, Entry, OrderedRawObject, unmarshal_object}
use agentpulse_bridge.Hooks.Merge.Events.{install_events, uninstall_events}
use agentpulse_bridge.Hooks.Scan.{
  Decoder, ScanError, Scanned, ok, failed, out_of_fuel, Object, scan_object,
}
use agentpulse_bridge.Hooks.Splice.{
  Member, find_member, first_nonempty, line_indent, splice_top_level_key,
}
use agentpulse_bridge.Hooks.Diff.{split_at_line_ends, diff}

abbrev pub br08_hook_timeout : ℕ
br08_hook_timeout = 10

-- `claudehooks.BR08Events`
abbrev pub br08_events : List String
br08_events =
    "SessionStart" ∷ "UserPromptSubmit" ∷ "PreToolUse" ∷ "PostToolUse" ∷ "PermissionRequest"
    ∷ "Notification" ∷ "Stop" ∷ "SessionEnd" ∷ "StopFailure" ∷ "SubagentStart" ∷ "SubagentStop" ∷ []

unfoldable pub hook_entries : Text → List Entry
hook_entries command =
    map
      (λ (event : String). record {
        event = event;
        matcher = "";
        command = command;
        timeout = br08_hook_timeout;
      })
      br08_events

abbrev pub utf8_bom : Bytes
utf8_bom = 0xEF ∷ 0xBB ∷ 0xBF ∷ []

abbrev pub rest_of : List Bytes → List Bytes
rest_of [] = []
rest_of (line ∷ lines) = lines

unfoldable pub detect_indent : Bytes → Bytes
detect_indent content = line_indent (first_nonempty (rest_of (split_at_line_ends content)))

-- encoding/json on bytes: the decoder of a text, the value that a text is, and `json.Indent` with a
-- prefix on each line and without one, the latter with a line end behind it.
pub record Codec : Type 1 where
  pub json : Json
  pub decoder : Bytes → Decoder
  pub raw_of : Bytes → Option json.Raw
  pub pretty_value : json.Raw → Bytes → Bytes
  pub pretty : json.Raw → Bytes → Bytes

pub data PlanError : Type 0 where
  unreadable hooks_not_an_object event_not_an_array scan_gave_up : PlanError
  not_scanned : ScanError → PlanError

pub data Planned (A : Type 0) : Type 0 where
  planned : A → Planned A
  refused : PlanError → Planned A

pub data Settings : Type 0 where
  missing unreadable_file : Settings
  present : Bytes → Settings

pub record Plan : Type 0 where
  pub before : Bytes
  pub after : Bytes
  pub diff_text : Bytes
  pub changed : Bool

-- What to put in; `none` takes everything of the owner's out.
abbrev pub Wanted : Type 0
Wanted = Option (List Entry)

module _ (codec : Codec) (owner : Owner) where
  abbrev pub HooksObject : Type 0
  HooksObject = OrderedRawObject codec.json

  abbrev pub object_in : Option codec.json.Raw → Option HooksObject
  object_in none = none
  object_in (some raw) = unmarshal_object codec.json raw

  abbrev pub hooks_object : Bytes → Option Member → Option HooksObject
  hooks_object content none = some []
  hooks_object content (some m) =
      object_in (codec.raw_of (take (m.value_end - m.value_start) (drop m.value_start content)))

  abbrev pub merged_hooks : Wanted → HooksObject → Option HooksObject
  merged_hooks none object = uninstall_events codec.json owner object
  merged_hooks (some entries) object = install_events codec.json owner entries object

  -- `none` deletes the member.
  abbrev pub new_hooks_value : Bytes → HooksObject → Option Bytes
  new_hooks_value indent [] = none
  new_hooks_value indent (m ∷ ms) =
      some (codec.pretty_value (codec.json.of_members (m ∷ ms)) indent)

  abbrev pub put_hooks : Bytes → List Member → ℕ → ℕ → Bytes → Option HooksObject → Planned Bytes
  put_hooks content members brace_open brace_close indent none = refused event_not_an_array
  put_hooks content members brace_open brace_close indent (some object) = planned (
      splice_top_level_key content brace_open brace_close members "hooks"
        (new_hooks_value indent object) indent)

  abbrev pub merge_hooks :
      Bytes → Wanted → List Member → ℕ → ℕ → Bytes → Option HooksObject → Planned Bytes
  merge_hooks content wanted members brace_open brace_close indent none =
      refused hooks_not_an_object
  merge_hooks content wanted members brace_open brace_close indent (some object) =
      put_hooks content members brace_open brace_close indent (merged_hooks wanted object)

  abbrev pub splice_scanned :
      (content : Bytes) → Wanted → Bytes → Object (codec.decoder content) content → Planned Bytes
  splice_scanned content wanted indent (ok (members, brace_open, brace_close)) =
      merge_hooks content wanted members brace_open brace_close indent
        (hooks_object content (find_member members "hooks"))
  splice_scanned content wanted indent (failed e) = refused (not_scanned e)
  splice_scanned content wanted indent out_of_fuel = refused scan_gave_up

  unfoldable pub splice_hooks_into : Bytes → Wanted → Bytes → Planned Bytes
  unfolding scan_object install_events uninstall_events splice_top_level_key
  splice_hooks_into content wanted indent =
      splice_scanned content wanted indent (scan_object (codec.decoder content) content)

  abbrev pub new_document : Bytes → Option HooksObject → Planned Bytes
  new_document indent none = refused event_not_an_array
  new_document indent (some []) = planned (codes "{}\n")
  new_document indent (some (m ∷ ms)) =
      planned (
        codec.pretty (codec.json.of_members (("hooks", codec.json.of_members (m ∷ ms)) ∷ []))
          indent)

  unfoldable pub build_from_scratch : List Entry → Bytes → Planned Bytes
  unfolding install_events
  build_from_scratch entries indent =
      new_document indent (install_events codec.json owner entries [])

  abbrev pub unchanged_plan : Bytes → Plan
  unchanged_plan before = record {
    before = before;
    after = before;
    diff_text = [];
    changed = false;
  }

  abbrev pub plan_of : Bytes → Bytes → Planned Bytes → Planned Plan
  plan_of before bom (refused e) = refused e
  plan_of before bom (planned new_content) = planned (record {
    before = before;
    after = bom ++ new_content;
    diff_text = diff before (bom ++ new_content);
    changed = not (same_text before (bom ++ new_content));
  })

  -- The content behind the byte order mark `bom`, which is empty or `utf8_bom`.
  abbrev pub plan_content : Bytes → Bytes → Bytes → Wanted → Planned Plan
  plan_content before bom [] none = planned (unchanged_plan before)
  plan_content before bom [] (some entries) =
      plan_of before bom (build_from_scratch entries (detect_indent []))
  plan_content before bom (c ∷ s) wanted =
      plan_of before bom (splice_hooks_into (c ∷ s) wanted (detect_indent (c ∷ s)))

  abbrev pub plan_behind_bom : Bytes → Option Bytes → Wanted → Planned Plan
  plan_behind_bom before none wanted = plan_content before [] before wanted
  plan_behind_bom before (some content) wanted = plan_content before utf8_bom content wanted

  unfoldable pub plan : Settings → Wanted → Planned Plan
  unfolding splice_hooks_into build_from_scratch detect_indent diff
  plan missing wanted = plan_content [] [] [] wanted
  plan unreadable_file wanted = refused unreadable
  plan (present before) wanted = plan_behind_bom before (strip_prefix utf8_bom before) wanted
