-- ===== src/Tests/Plan.antt =====
-- Runs of internal/hooks' plan on a small settings file, with the encoding/json of Tests.Json.
use agentpulse_bridge.Base.{◌≡◌, refl, false, none, some}
use agentpulse_bridge.Base.Text.{codes}
use agentpulse_bridge.Hooks.Owner.{Owner, new_owner}
use agentpulse_bridge.Hooks.Plan.{Codec, planned, present, hook_entries, splice_hooks_into, plan}
use agentpulse_bridge.Hooks.Plan.Edits.{Rewrites, splice_hooks_into-Rewrites}
use agentpulse_bridge.Tests.Json.{object_end, values}
use agentpulse_bridge.Tests.Scan.{content, decoder, decoder-IsDecoder}

-- Every value is read as an empty object and written as `{}`.
abbrev codec : Codec
codec = record {
  json = values;
  decoder = λ text. decoder;
  raw_of = λ text. some object_end;
  pretty_value = λ value indent. codes "{}";
  pretty = λ value indent. codes "{}\n";
}

abbrev owner : Owner
owner = new_owner (codes "/opt/agentpulse")

hooks_added :
    splice_hooks_into codec owner content
      (some (hook_entries (codes "agentpulse hook")))
      (codes "  ")
    ≡ planned (codes "{\"a\": 1,\n  \"hooks\": {}}")
unfolding splice_hooks_into hook_entries
hooks_added = refl

nothing_to_take_out :
    plan codec owner (present content) none
    ≡ planned (record {
      before = content;
      after = content;
      diff_text = codes "  {\"a\": 1}\n";
      changed = false;
    })
unfolding plan
nothing_to_take_out = refl

splice_hooks_into-Rewrites_example : Rewrites codec owner content (
    splice_hooks_into codec owner content
      (some (hook_entries (codes "agentpulse hook")))
      (codes "  "))
splice_hooks_into-Rewrites_example =
    splice_hooks_into-Rewrites codec owner content (some (hook_entries (codes "agentpulse hook")))
      (codes "  ") decoder-IsDecoder
