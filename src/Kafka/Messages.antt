-- ===== src/Kafka/Messages.antt =====
-- The messages that go through Kafka, and what they become.
use cria.Prelude.{ℕ, String, Bool, Option, or_else, List}
use cria.Pb
use cria.Pb.{TokenEvent, TokenEventType, SamplingOptions, StreamOptions, as_i32}
use cria.State.{RequestStatusInternal}

pub record SamplingJobOptions : Type 0 where
  pub temperature : ℕ
  pub top_p : ℕ
  pub top_k : ℕ
  pub seed : ℕ

-- `SamplingJobOptions::from`.
unfoldable pub sampling_job_options : SamplingOptions → SamplingJobOptions
sampling_job_options value = record {
  temperature = value.temperature;
  top_p = value.top_p;
  top_k = value.top_k;
  seed = value.seed;
}

pub record StreamJobOptions : Type 0 where
  pub include_probabilities : Bool
  pub replay_from_beginning : Bool

-- `StreamJobOptions::from`.
unfoldable pub stream_job_options : StreamOptions → StreamJobOptions
stream_job_options value = record {
  include_probabilities = value.include_probabilities;
  replay_from_beginning = value.replay_from_beginning;
}

pub record InferenceJob : Type 0 where
  pub request_id : String
  pub model_id : String
  pub prompt : String
  pub max_tokens : ℕ
  pub sampling : Option SamplingJobOptions
  pub stream_options : Option StreamJobOptions
  pub deadline_ms : ℕ
  pub timestamp_ms : ℕ

pub record CancellationEvent : Type 0 where
  pub request_id : String
  pub reason : String
  pub timestamp_ms : ℕ

pub data TokenEventKind : Type 0 where
  started token completed failed cancelled : TokenEventKind

pub record TokenEventEnvelope : Type 0 where
  pub request_id : String
  pub sequence_number : ℕ
  pub token : String
  pub probability : ℕ
  pub event_type : TokenEventKind
  pub worker_id : String
  pub error_message : Option String
  pub timestamp_ms : ℕ

-- The `match` at the head of `into_proto`.
abbrev pub proto_type : TokenEventKind → TokenEventType
proto_type TokenEventKind.started = TokenEventType.started
proto_type TokenEventKind.token = TokenEventType.token
proto_type TokenEventKind.completed = TokenEventType.completed
proto_type TokenEventKind.failed = TokenEventType.failed
proto_type TokenEventKind.cancelled = TokenEventType.cancelled

unfoldable pub into_proto : TokenEventEnvelope → TokenEvent
into_proto e = record {
  request_id = e.request_id;
  sequence_number = e.sequence_number;
  token = e.token;
  probability = e.probability;
  event_type = as_i32 (proto_type e.event_type);
  worker_id = e.worker_id;
  error_message = or_else e.error_message "";
  timestamp_ms = e.timestamp_ms;
}

-- `From<RequestStatusInternal> for pb::RequestStatus`.
unfoldable pub request_status : RequestStatusInternal → Pb.RequestStatus
request_status RequestStatusInternal.queued = Pb.RequestStatus.queued
request_status RequestStatusInternal.running = Pb.RequestStatus.running
request_status RequestStatusInternal.completed = Pb.RequestStatus.completed
request_status RequestStatusInternal.failed = Pb.RequestStatus.failed
request_status RequestStatusInternal.cancelled = Pb.RequestStatus.cancelled

-- A record handed to the producer.
pub record FutureRecord : Type 0 where
  pub topic : String
  pub key : String
  pub payload : String

-- What rdkafka and serde_json do. Encoding and parsing may fail, and a send may be refused; whether
-- it is may depend on all that was sent before.
pub record Kafka : Type 0 where
  pub encode_job : InferenceJob → Option String
  pub encode_cancellation : CancellationEvent → Option String
  pub parse_envelope : String → Option TokenEventEnvelope
  pub delivers : List FutureRecord → FutureRecord → Bool
