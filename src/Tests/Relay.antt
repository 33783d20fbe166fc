-- ===== src/Tests/Relay.antt =====
-- Runs of internal/relay.
use agentpulse_bridge.Base.{
  ℕ, ◌≤◌, ◌≡◌, refl, ◌⊎◌, true, false, Option, none, some, List, [], ◌∷◌, arith, length, All, Bytes,
}
use agentpulse_bridge.Base.Text.{codes}
use agentpulse_bridge.Relay.Types.{
  Response, PostError, status, StatusError, status_error, bad_request, zero_ok_body,
  zero_error_body, empty_response,
}
use agentpulse_bridge.Relay.Chunk.{next_chunk, max_chunk_bytes}
use agentpulse_bridge.Relay.Detail.{parse_event_index, parse_unexpected_field}
use agentpulse_bridge.Relay.Chunk.Split.{Splits, next_chunk-Splits}
use agentpulse_bridge.Relay.Client.{
  Codec, HttpResult, answered, post_events, post_chunk, batch_body, named_by,
}
use agentpulse_bridge.Relay.Client.Delivery.{Delivered, IsPlaced, post_events-Delivered}
use agentpulse_bridge.Relay.Client.Refusals.{length-batch_body-le}
use agentpulse_bridge.Relay.Client.Named.{IsNamed, post_events-IsNamed}

abbrev events : List Bytes
events = codes "{}" ∷ codes "[]" ∷ []

abbrev json : Codec
json = record {
  is_json = λ _. true;
  type_of = λ _. "activity";
  ok_body = λ _. zero_ok_body;
  error_body = λ _. zero_error_body;
}

abbrev accepts : ℕ → List Bytes → HttpResult
accepts k chunk = answered (record { status_code = 200; retry_after = []; body = none })

next_chunk-Splits_example : Splits (next_chunk events) events
next_chunk-Splits_example = next_chunk-Splits events

post_events-Delivered_example :
    (r : Response) × (e : Option PostError) × (post_events json (λ _. false) accepts events
      ≡ some (r, e))
    × Delivered json (λ _. false) accepts 0 events r.sent
    × (r.sent ≤ length events)
    × (e ≡ none → r.sent ≡ length events)
    × All (IsPlaced (length events)) r.dropped
post_events-Delivered_example = post_events-Delivered json (λ _. false) accepts events

length-batch_body-le_example :
    (length (batch_body (λ e. e) (codes "7") (next_chunk events).chunk) ≤ max_chunk_bytes)
    ⊎ (length (next_chunk events).chunk ≡ 1)
unfolding next_chunk
length-batch_body-le_example =
    length-batch_body-le (λ e. e) (codes "7") events (omega arith) (omega arith)
      (omega arith, (omega arith, tt))

-- The relay refuses the second event of a request for a field that it does not know.
abbrev detail_json : Codec
detail_json = record json {
  error_body = λ _. record {
    detail = codes "events.1: unexpected field subagent";
    required_bridge_version = [];
  };
}

abbrev refuses : ℕ → List Bytes → HttpResult
refuses k chunk =
    answered (record { status_code = 400; retry_after = []; body = some (codes "{}") })

abbrev named_refusal : StatusError
named_refusal = record (status_error bad_request 400) {
  event_index = some 1;
  unexpected_field = codes "subagent";
}

abbrev refused : Response
refused = record empty_response {
  dropped =
      (record { index = 1; event_type = "activity"; unexpected_field = codes "subagent" }) ∷ [];
}

refused_runs :
    post_events detail_json (λ _. false) refuses events
    ≡ some (refused, some (status named_refusal))
unfolding post_events next_chunk post_chunk named_by parse_event_index parse_unexpected_field
refused_runs = refl

post_events-IsNamed_example : IsNamed detail_json (λ _. false) refuses events named_refusal refused
post_events-IsNamed_example =
    post_events-IsNamed detail_json (λ _. false) refuses events named_refusal refused
      (omega arith, (omega arith, tt)) refl refused_runs
