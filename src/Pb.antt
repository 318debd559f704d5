-- ===== src/Pb.antt =====
-- The messages of proto/inference.proto, as the generated code gives them to the control plane: an
-- enumeration is an `i32` on the wire, which `as i32` writes and `try_from` reads. An `f32` is kept
-- as its bit pattern, for the code only copies it; a `u32` and a `u64` are numbers.
use cria.Prelude.{ℕ, zero, suc, String, ◌≡◌, refl, Option, none, some, Bool}

pub data TokenEventType : Type 0 where
  unspecified started token completed failed cancelled : TokenEventType

unfoldable pub as_i32 : TokenEventType → ℕ
as_i32 TokenEventType.unspecified = 0
as_i32 TokenEventType.started = 1
as_i32 TokenEventType.token = 2
as_i32 TokenEventType.completed = 3
as_i32 TokenEventType.failed = 4
as_i32 TokenEventType.cancelled = 5

unfoldable pub try_from : ℕ → Option TokenEventType
try_from zero = some TokenEventType.unspecified
try_from (suc zero) = some TokenEventType.started
try_from (suc (suc zero)) = some TokenEventType.token
try_from (suc (suc (suc zero))) = some TokenEventType.completed
try_from (suc (suc (suc (suc zero)))) = some TokenEventType.failed
try_from (suc (suc (suc (suc (suc zero))))) = some TokenEventType.cancelled
try_from _ = none

-- `as_str_name` of the generated enumeration.
unfoldable pub event_type_name : TokenEventType → String
event_type_name TokenEventType.unspecified = "TOKEN_EVENT_TYPE_UNSPECIFIED"
event_type_name TokenEventType.started = "TOKEN_EVENT_TYPE_STARTED"
event_type_name TokenEventType.token = "TOKEN_EVENT_TYPE_TOKEN"
event_type_name TokenEventType.completed = "TOKEN_EVENT_TYPE_COMPLETED"
event_type_name TokenEventType.failed = "TOKEN_EVENT_TYPE_FAILED"
event_type_name TokenEventType.cancelled = "TOKEN_EVENT_TYPE_CANCELLED"

pub data RequestStatus : Type 0 where
  unspecified queued running completed failed cancelled : RequestStatus

unfoldable pub status_as_i32 : RequestStatus → ℕ
status_as_i32 RequestStatus.unspecified = 0
status_as_i32 RequestStatus.queued = 1
status_as_i32 RequestStatus.running = 2
status_as_i32 RequestStatus.completed = 3
status_as_i32 RequestStatus.failed = 4
status_as_i32 RequestStatus.cancelled = 5

unfoldable pub status_name : RequestStatus → String
status_name RequestStatus.unspecified = "REQUEST_STATUS_UNSPECIFIED"
status_name RequestStatus.queued = "REQUEST_STATUS_QUEUED"
status_name RequestStatus.running = "REQUEST_STATUS_RUNNING"
status_name RequestStatus.completed = "REQUEST_STATUS_COMPLETED"
status_name RequestStatus.failed = "REQUEST_STATUS_FAILED"
status_name RequestStatus.cancelled = "REQUEST_STATUS_CANCELLED"

pub record TokenEvent : Type 0 where
  pub request_id : String
  pub sequence_number : ℕ
  pub token : String
  pub probability : ℕ
  pub event_type : ℕ
  pub worker_id : String
  pub error_message : String
  pub timestamp_ms : ℕ

pub record SamplingOptions : Type 0 where
  pub temperature : ℕ
  pub top_p : ℕ
  pub top_k : ℕ
  pub seed : ℕ

pub record StreamOptions : Type 0 where
  pub include_probabilities : Bool
  pub replay_from_beginning : Bool

pub record InferenceRequest : Type 0 where
  pub request_id : String
  pub prompt : String
  pub max_tokens : ℕ
  pub sampling : Option SamplingOptions
  pub deadline_ms : ℕ
  pub stream_options : Option StreamOptions
  pub model_id : String

pub record CancelRequest : Type 0 where
  pub request_id : String
  pub reason : String

pub record CancelResponse : Type 0 where
  pub request_id : String
  pub accepted : Bool
  pub message : String

pub record StatusResponse : Type 0 where
  pub request_id : String
  pub status : ℕ
  pub emitted_tokens : ℕ
  pub worker_id : String
  pub error_message : String
  pub created_at_ms : ℕ
  pub updated_at_ms : ℕ

-- `TokenEventType::try_from(n).unwrap_or(TokenEventType::Unspecified)`.
unfoldable pub event_type_of : ℕ → TokenEventType
unfolding try_from
event_type_of n = elim (try_from n) [ none ↦ TokenEventType.unspecified | some t ↦ t ]

-- What is written with `as i32` is read back.
pub event_type_of-as_i32 : (t : TokenEventType) → event_type_of (as_i32 t) ≡ t
unfolding event_type_of as_i32
event_type_of-as_i32 TokenEventType.unspecified = refl
event_type_of-as_i32 _ = refl
