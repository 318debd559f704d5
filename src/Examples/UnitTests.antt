-- ===== src/Examples/UnitTests.antt =====
-- The unit tests of control-plane/, as they stand at the end of its files, on the model.
use cria.Prelude.{String, ◌≡◌, refl, true, false, Option, none, some, [], ◌∷◌}
use mathlib.Core.Option
use cria.Table.{assoc_map, find, put, without, count, tally, discard}
use cria.Text.{trim, trim_start, trim_end, is_whitespace, split, split_once, show}
use cria.HashMap
use cria.HashMap.{HashMap}
use cria.Config.Parse.{Result, ok, err}
use cria.Config.Routes.{add_entry, add_entries, parse_model_routes}
use cria.Pb
use cria.Pb.{TokenEvent, TokenEventType}
use cria.State
use cria.State.{RequestRecord, RequestState, RequestStatusInternal}
use cria.Streaming
use cria.Streaming.{StreamRegistry, SendResult, sent, failed, event, invalid_argument}
use cria.Kafka.Messages.{TokenEventEnvelope, TokenEventKind, into_proto}
use cria.Api.Begin.{within, exceeded, normalize_max_tokens}
use cria.Examples.Setup.{channels, no_channels}

abbrev status_of : RequestState → String → Option RequestStatusInternal
status_of s id = Option.map (λ r. r.status) (State.get s id)

-- `tracks_request_lifecycle`.
abbrev inserted : RequestState
inserted = State.insert State.new (State.queued_record "req-1" 1)

abbrev ran : RequestState
ran =
    State.note_token
      (State.note_token (State.mark_running inserted "req-1" "worker-a" 2) "req-1" 2 "worker-a" 3)
      "req-1" 1 "worker-a" 4

abbrev ended : RequestState
ended = State.finish_completed ran "req-1" 3 "worker-a" 5

tracks_request_lifecycle :
    (State.active_count inserted ≡ 1)
    × (status_of inserted "req-1" ≡ some RequestStatusInternal.queued)
    × (status_of ran "req-1" ≡ some RequestStatusInternal.running)
    × (Option.map (λ r. r.emitted_tokens) (State.get ran "req-1") ≡ some 2)
    × (Option.map (λ r. r.worker_id) (State.get ran "req-1") ≡ some (some "worker-a"))
    × (status_of ended "req-1" ≡ some RequestStatusInternal.completed)
    × (Option.map (λ r. r.emitted_tokens) (State.get ended "req-1") ≡ some 3)
    × (State.active_count ended ≡ 0)
unfolding State.active_count State.new State.insert State.queued_record State.get State.mark_running
    State.note_token State.finish_completed State.update count tally find put without
tracks_request_lifecycle = (refl, refl, refl, refl, refl, refl, refl, refl)

-- `cancel_only_non_terminal_requests`.
cancel_only_non_terminal_requests :
    let (aborted, accepted) = State.cancel inserted "req-1" "user abort" 2 in
    (accepted ≡ true)
    × (status_of aborted "req-1" ≡ some RequestStatusInternal.cancelled)
    × (Option.map (λ r. r.cancellation_reason) (State.get aborted "req-1")
        ≡ some (some "user abort"))
    × ((State.cancel aborted "req-1" "again" 3).1 ≡ false)
    × ((State.cancel aborted "missing" "no-op" 4).1 ≡ false)
unfolding State.new State.insert State.queued_record State.get State.cancel find put without
cancel_only_non_terminal_requests = (refl, refl, refl, refl, refl)

-- `registers_sends_and_unregisters_streams`.
abbrev hello : TokenEvent
hello = record {
  request_id = "req-1";
  sequence_number = 1;
  token = "hello";
  probability = 1065353216;
  event_type = 2;
  worker_id = "worker-a";
  error_message = "";
  timestamp_ms = 1;
}

registers_sends_and_unregisters_streams :
    let (s, receiver) = Streaming.register (Streaming.new no_channels) "req-1" in
    let (s', result) = Streaming.send s "req-1" (event hello) in
    (receiver ≡ some 0)
    × ((Streaming.register s "req-1").1 ≡ none)
    × (result ≡ sent)
    × (channels.accepted s'.net 0 ≡ event hello ∷ [])
    × ((Streaming.send (Streaming.unregister s' "req-1") "req-1" (event hello)).1
        ≡ failed "stream not registered")
unfolding Streaming.new Streaming.register Streaming.send Streaming.unregister find put without
    discard
registers_sends_and_unregisters_streams = (refl, refl, refl, refl, refl)

-- `parses_python_token_event_payload`, behind the parser.
abbrev python_event : TokenEventEnvelope
python_event = record {
  request_id = "req-1";
  sequence_number = 7;
  token = "hello ";
  probability = 1065353216;
  event_type = TokenEventKind.token;
  worker_id = "worker-a";
  error_message = none;
  timestamp_ms = 1234;
}

parses_python_token_event_payload :
    ((into_proto python_event).request_id ≡ "req-1")
    × ((into_proto python_event).sequence_number ≡ 7)
    × ((into_proto python_event).token ≡ "hello ")
    × ((into_proto python_event).event_type ≡ Pb.as_i32 TokenEventType.token)
    × ((into_proto python_event).error_message ≡ "")
unfolding into_proto
parses_python_token_event_payload = (refl, refl, refl, refl, refl)

-- `parses_terminal_failed_event_payload`, behind the parser.
abbrev failed_event : TokenEventEnvelope
failed_event = record python_event {
  sequence_number = 0;
  token = "";
  probability = 0;
  event_type = TokenEventKind.failed;
  error_message = some "boom";
}

parses_terminal_failed_event_payload :
    ((into_proto failed_event).event_type ≡ Pb.as_i32 TokenEventType.failed)
    × ((into_proto failed_event).error_message ≡ "boom")
unfolding into_proto
parses_terminal_failed_event_payload = (refl, refl)

max_tokens_uses_default_for_zero : normalize_max_tokens 0 64 128 ≡ within 64
unfolding normalize_max_tokens
max_tokens_uses_default_for_zero = refl

max_tokens_accepts_values_at_limit : normalize_max_tokens 128 64 128 ≡ within 128
unfolding normalize_max_tokens
max_tokens_accepts_values_at_limit = refl

max_tokens_rejects_values_above_limit :
    normalize_max_tokens 129 64 128
    ≡ exceeded (record { code = invalid_argument; message = "max_tokens exceeds limit of 128" })
unfolding normalize_max_tokens show
max_tokens_rejects_values_above_limit = refl

abbrev topic_read : String → Result (HashMap String) → Option String
topic_read model (ok routes) = HashMap.get routes model
topic_read model (err message) = none

parses_model_routes :
    let routes =
      parse_model_routes "mock=inference_requests.mock,llama=inference_requests.llama" "mock"
        "fallback" in
    (topic_read "mock" routes ≡ some "inference_requests.mock")
    × (topic_read "llama" routes ≡ some "inference_requests.llama")
unfolding parse_model_routes add_entries add_entry trim trim_start trim_end is_whitespace split
    split_once HashMap.get HashMap.insert HashMap.or_insert HashMap.empty find put without
parses_model_routes = (refl, refl)

inserts_default_route_when_missing :
    topic_read "mock"
      (parse_model_routes "llama=inference_requests.llama" "mock" "inference_requests.mock")
    ≡ some "inference_requests.mock"
unfolding parse_model_routes add_entries add_entry trim trim_start trim_end is_whitespace split
    split_once HashMap.get HashMap.insert HashMap.or_insert HashMap.empty find put without
inserts_default_route_when_missing = refl
