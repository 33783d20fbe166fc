-- ===== src/Relay/Client.antt =====
-- internal/relay/client.go: `postChunk` and `PostEvents`.
-- The HTTP transport and the JSON codec are parameters. The relay is a function of the round and of
-- the chunk that the round sends.
pub mod Delivery
pub mod Refusals
pub mod Named
use agentpulse_bridge.Base.{
  ℕ, zero, suc, ◌+◌, Bool, true, false, not, ◌&&◌, Option, none, some, String, List, [], ◌∷◌, ◌++◌,
  map, ltb, leb, ◌==◌, if◌then◌else◌, length, get_elem?, drop, Bytes,
}
use agentpulse_bridge.Base.Ints.{◌+ℤ◌}
use agentpulse_bridge.Base.Text.{Text, codes}
use agentpulse_bridge.Relay.Types.{
  Response, empty_response, DroppedEvent, OkBody, zero_ok_body, ErrorBody, zero_error_body,
  WatchList, Settings, StatusError, status_error, PostError, status, encoding, bad_request,
  unauthorized, rate_limited, server_error, network, timeout,
}
use agentpulse_bridge.Relay.Chunk.{Chunk, next_chunk}
use agentpulse_bridge.Relay.Detail.{parse_event_index, parse_unexpected_field, parse_retry_after}

-- What the code takes from encoding/json: whether a line is JSON, its "type" field, and the two
-- response bodies, each decoded as far as it goes.
pub record Codec : Type 0 where
  pub is_json : Bytes → Bool
  pub type_of : Bytes → String
  pub ok_body : Bytes → OkBody
  pub error_body : Bytes → ErrorBody

-- A response; `body` is `none` if reading it failed.
pub record HttpResponse : Type 0 where
  pub status_code : ℕ
  pub retry_after : Text
  pub body : Option Bytes

-- `lost` is an error of the transport, and says whether the context has expired too.
pub data HttpResult : Type 0 where
  answered : HttpResponse → HttpResult
  lost : Bool → HttpResult

pub data Posted : Type 0 where
  delivered : OkBody → Posted
  stopped : PostError → Posted

abbrev pub is_success : ℕ → Bool
is_success code = leb 200 code && ltb code 300

-- The elements of the array, with a comma between them.
abbrev pub join : List Bytes → Bytes
join [] = []
join (x ∷ []) = x
join (x ∷ y ∷ xs) = x ++ b',' ∷ join (y ∷ xs)

-- The request body; `version` is the decimal text of the watch list's version. `compact` is what
-- json.Marshal makes of a json.RawMessage: it drops white space and escapes `<`, `>` and `&`.
unfoldable pub batch_body : (Bytes → Bytes) → Bytes → List Bytes → Bytes
batch_body compact version chunk =
    codes "{\"events\":["
    ++ join (map compact chunk)
    ++ codes "],\"watch_list_version\":"
    ++ version
    ++ b'}' ∷ []

module _ (json : Codec) where
  abbrev pub ok_of : Option Bytes → OkBody
  ok_of none = zero_ok_body
  ok_of (some b) = json.ok_body b

  abbrev error_of : Option Bytes → ErrorBody
  error_of none = zero_error_body
  error_of (some b) = json.error_body b

  abbrev unexpected : Option ℕ → Text → Text
  unexpected none detail = []
  unexpected (some i) detail = parse_unexpected_field detail

  bad_request_error : ErrorBody → StatusError
  bad_request_error body = record (status_error bad_request 400) {
    required_bridge_version = body.required_bridge_version;
    event_index = parse_event_index body.detail;
    unexpected_field = unexpected (parse_event_index body.detail) body.detail;
  }

  -- The `switch` on the status of a response that is no success.
  unfoldable pub refusal : HttpResponse → StatusError
  unfolding bad_request_error
  refusal r =
      if r.status_code == 400
      then bad_request_error (error_of r.body)
      else if r.status_code == 401
      then status_error unauthorized r.status_code
      else if r.status_code == 429
      then record (status_error rate_limited r.status_code) {
        retry_after = parse_retry_after r.retry_after;
      }
      else status_error server_error r.status_code

  unfoldable pub classify_result : HttpResult → Posted
  unfolding refusal
  classify_result (lost expired) =
      stopped (status (status_error (if expired then timeout else network) 0))
  classify_result (answered r) =
      if is_success r.status_code then delivered (ok_of r.body) else stopped (status (refusal r))

  abbrev all_json : List Bytes → Bool
  all_json [] = true
  all_json (e ∷ es) = json.is_json e && all_json es

  -- The body cannot be encoded if an event is not JSON.
  unfoldable pub post_chunk : (List Bytes → HttpResult) → List Bytes → Posted
  unfolding classify_result
  post_chunk send chunk = if all_json chunk then classify_result (send chunk) else stopped encoding

  abbrev pub type_at : Option Bytes → String
  type_at none = ""
  type_at (some e) = json.type_of e

  abbrev pub drop_oversized : ℕ → List Bytes → ℕ → DroppedEvent
  drop_oversized offset rest i = record {
    index = offset + i;
    event_type = type_at (get_elem? rest i);
    unexpected_field = [];
  }

  -- The event that a 400 named, if its index lies in the chunk; `rest` is `events[offset:]`.
  abbrev named_event : ℕ → List Bytes → List Bytes → StatusError → Option ℕ → List DroppedEvent
  named_event offset rest chunk e none = []
  named_event offset rest chunk e (some i) =
      if ltb i (length chunk)
      then (record {
        index = offset + i;
        event_type = type_at (get_elem? rest i);
        unexpected_field = e.unexpected_field;
      })
        ∷ []
      else []

  abbrev is_bad_request : StatusError → Bool
  is_bad_request e = elim e.kind [ bad_request ↦ true | _ ↦ false ]

  unfoldable pub named_by : ℕ → List Bytes → List Bytes → PostError → List DroppedEvent
  named_by offset rest chunk encoding = []
  named_by offset rest chunk (status e) =
      if is_bad_request e then named_event offset rest chunk e e.event_index else []

  abbrev or_else : {A : Type 0} → Option A → Option A → Option A
  or_else none old = old
  or_else (some new) old = some new

  -- Sums of a Go `int` wrap.
  abbrev pub merge_ok : ℕ → OkBody → Response → Response
  merge_ok sent body r = record r {
    sent = sent;
    accepted = r.accepted +ℤ body.accepted;
    duplicates = r.duplicates +ℤ body.duplicates;
    watch_list = or_else body.watch_list r.watch_list;
    settings = or_else body.settings r.settings;
  }

  -- `expired k` is `ctx.Err() != nil` at the start of round `k`; `send k` is the exchange in it.
  module _ (expired : ℕ → Bool) (send : ℕ → List Bytes → HttpResult) where
    abbrev pub record_oversized : ℕ → List Bytes → Chunk → Response → Response
    record_oversized offset rest c r = record r {
      dropped = r.dropped ++ map (drop_oversized offset rest) c.oversized;
    }

    -- How a round ends: past the oversized events, past a delivered chunk, or for good.
    abbrev pub settle :
        (Response → Option (Response × Option PostError))
        → ℕ
        → ℕ
        → List Bytes
        → Response
        → List Bytes
        → Posted
        → Option (Response × Option PostError)
    settle next sent offset rest noted [] posted = next (record noted { sent = sent })
    settle next sent offset rest noted (x ∷ xs) (delivered body) = next (merge_ok sent body noted)
    settle next sent offset rest noted (x ∷ xs) (stopped err) =
        some
          (record noted { dropped = noted.dropped ++ named_by offset rest (x ∷ xs) err }, some err)

    -- One round per unit of fuel; `none` means that the fuel ran out.
    unfoldable pub post_loop :
        ℕ → ℕ → ℕ → List Bytes → Response → Option (Response × Option PostError)
    post_loop zero k offset rest result = none
    post_loop (suc fuel) k offset [] result = some (result, none)
    post_loop (suc fuel) k offset (e ∷ es) result =
        let rest = e ∷ es in
        let c = next_chunk rest in
        let sent = offset + c.consumed in
        let next = λ (r : Response). post_loop fuel (k + 1) sent (drop c.consumed rest) r in
        if expired k
        then some (result, some (status (status_error timeout 0)))
        else settle next sent offset rest (record_oversized offset rest c result) c.chunk
            (post_chunk (send k) c.chunk)

    unfoldable pub post_events : List Bytes → Option (Response × Option PostError)
    unfolding post_loop
    post_events events = post_loop (suc (length events)) 0 0 events empty_response
