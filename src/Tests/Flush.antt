-- ===== src/Tests/Flush.antt =====
-- Runs of cmd/agentpulse/flush.go.
use agentpulse_bridge.Base.{
  ℕ, ◌*◌, ◌≤◌, ◌≡◌, refl, sym, ap, true, false, Option, none, some, List, [], ◌∷◌, arith, leb,
  Bytes,
}
use agentpulse_bridge.Base.Text.{Text, codes, pos, atoi, trim_space}
use agentpulse_bridge.Relay.Types.{
  StatusError, status_error, rate_limited, bad_request, empty_response, zero_ok_body,
  zero_error_body,
}
use agentpulse_bridge.Relay.Detail.{second, parse_retry_after}
use agentpulse_bridge.Relay.Client.{answered, post_events, post_chunk, named_by}
use agentpulse_bridge.Watch.{File}
use agentpulse_bridge.Flush.Types.{State, Progress, Turn}
use agentpulse_bridge.Flush.Subagents.{FieldCodec, contains, has_subagent, strip_line}
use agentpulse_bridge.Flush.Loop.Repeats.{Rejects, flush_loop-repeats}
use agentpulse_bridge.Base.Dict.{lookup, remove}
use agentpulse_bridge.Relay.Detail.{parse_event_index, parse_unexpected_field}
use agentpulse_bridge.Relay.Chunk.{next_chunk}
use agentpulse_bridge.Flush.Waits.{IsObeyed, rate_limit_wait, rate_limit_wait_lem}
use agentpulse_bridge.Flush.Loop.{Formats, flush_loop}
use agentpulse_bridge.Flush.Loop.Weight.{weight}
use agentpulse_bridge.Flush.Loop.Shrinks.{IsEvent}
use agentpulse_bridge.Flush.Loop.Returns.{flush_loop-Returns}
use agentpulse_bridge.Flush.Run.{Left, Clock, IsCounted, flush_batch, flush_batch-IsCounted, start}

-- Every line that is not empty is an activity event with the field, and any object is `{}` encoded.
abbrev fields : FieldCodec
fields = record {
  members = λ l. some (("type", codes "activity") ∷ ("subagent", codes "{}") ∷ []);
  text_of = λ raw. "activity";
  marshal = λ ev. some (codes "{}");
}

abbrev formats : Formats
formats = record {
  codec = record {
    is_json = λ l. true;
    type_of = λ l. "activity";
    ok_body = λ b. zero_ok_body;
    error_body = λ b. zero_error_body;
  };
  fields = fields;
  last_event_of = λ l. none;
  header_of = λ l. none;
  parse_nano = λ s. none;
  parse = λ s. none;
  format = λ t. "now";
}

-- The relay refuses the credential in every turn.
abbrev refusing : ℕ → Turn
refusing k = record {
  is_over = false;
  expired = λ round. false;
  send = λ round chunk. answered (record { status_code = 401; retry_after = []; body = none });
  rejected_at = 0;
  answered_at = 0;
  sleeps = λ d. true;
  deletes = true;
}

abbrev clock : Clock
clock = record { paused_at = 0; coalesced_at = 0; limited_at = 0; ended_at = 0 }

abbrev state : State
state = record {
  consecutive_401 = 2;
  unpaired_reason = "";
  required_bridge_version = [];
  last_event = none;
  last_flush = none;
  subagents_off_until = "";
  rate_limited_until = "";
}

abbrev file : File
file = record { watch_list = none; settings = none }

abbrev batch : List Bytes
batch = codes "{\"subagent\":1}" ∷ codes "{}" ∷ []

any-IsEvent : (l : Bytes) → IsEvent fields l
unfolding contains
any-IsEvent l marked = (
  _,
  refl,
  λ l' encoded.
      sym (ap (λ (o : Option Bytes). elim o [ none ↦ false | some x ↦ has_subagent x ]) encoded),
)

flush_loop-Returns_example :
    (p : Progress) × (flush_loop formats "" 12 refusing 0
        (start formats "" refusing clock state file batch)
      ≡ some p)
unfolding weight contains
flush_loop-Returns_example =
    flush_loop-Returns formats "" refusing 12 0 (start formats "" refusing clock state file batch)
      (omega arith) (any-IsEvent (codes "{\"subagent\":1}"), (any-IsEvent (codes "{}"), tt))

-- The budget is over before the fourth turn.
abbrev within_budget : ℕ → Turn
within_budget k = record (refusing k) { is_over = leb 3 k }

flush_batch-IsCounted_example :
    (left : Left) × (flush_batch formats "" within_budget clock 4 state file batch ≡ some left)
    × IsCounted formats "" within_budget clock state left
flush_batch-IsCounted_example =
    flush_batch-IsCounted formats "" within_budget clock 4 3 state file batch (omega arith) refl

-- A codec that keeps a line's members as they are, an event of a project named `subagent`, and a
-- relay that rejects it as if for the field.
abbrev named_line : Bytes
named_line = codes "{\"name\":\"subagent\"}"

abbrev keeping : Formats
keeping = record formats {
  codec = record formats.codec {
    error_body = λ b. record {
      detail = codes "events.0: unexpected field subagent";
      required_bridge_version = [];
    };
  };
  fields = record fields { marshal = λ ev. some named_line };
}

abbrev rejecting : ℕ → Turn
rejecting k = record (refusing k) {
  send = λ round chunk.
      answered (record { status_code = 400; retry_after = []; body = some (codes "{}") });
}

rejecting-Rejects : (k : ℕ) → Rejects keeping "" named_line (rejecting k)
unfolding post_events next_chunk post_chunk named_by parse_event_index parse_unexpected_field
rejecting-Rejects k = record {
  r = record empty_response {
    dropped =
        (record { index = 0; event_type = "activity"; unexpected_field = codes "subagent" }) ∷ [];
  };
  se = record (status_error bad_request 400) {
    event_index = some 0;
    unexpected_field = codes "subagent";
  };
  d = record { index = 0; event_type = "activity"; unexpected_field = codes "subagent" };
  goes_on = refl;
  answers = refl;
  kind = refl;
  sent = refl;
  dropped = refl;
  index = refl;
  field = refl;
}

named_line_marked : has_subagent named_line ≡ true
unfolding contains
named_line_marked = refl

named_line_unchanged : strip_line keeping.fields named_line ≡ named_line ∷ []
unfolding contains lookup remove
named_line_unchanged = refl

flush_loop-repeats_example :
    flush_loop keeping "" 1000 rejecting 0
      (start keeping "" rejecting clock state file (named_line ∷ []))
    ≡ none
flush_loop-repeats_example =
    flush_loop-repeats keeping "" named_line named_line_marked named_line_unchanged rejecting
      rejecting-Rejects 1000 0 (start keeping "" rejecting clock state file (named_line ∷ [])) refl

abbrev limited : StatusError
limited = record (status_error rate_limited 429) { retry_after = some (30 * second) }

header_read : atoi (trim_space (codes "30")) ≡ some (pos 30)
unfolding atoi trim_space
header_read = refl

header_kept : some (30 * second) ≡ parse_retry_after (codes "30")
unfolding parse_retry_after
header_kept = refl

rate_limit_wait_lem_example :
    (1000000000 ≤ rate_limit_wait limited)
    × (rate_limit_wait limited ≤ 600000000000)
    × (limited.retry_after ≡ none → rate_limit_wait limited ≡ 30000000000)
    × ((header : Text) (secs : ℕ) → IsObeyed limited header secs)
rate_limit_wait_lem_example = rate_limit_wait_lem limited

thirty_seconds : rate_limit_wait limited ≡ 30 * second
thirty_seconds =
    ((rate_limit_wait_lem limited).3 (codes "30") 30 (λ e. cc) header_read header_kept).0
      (omega arith) (omega arith)
