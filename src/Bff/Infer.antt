-- ===== src/Bff/Infer.antt =====
-- `infer`: its two halves, before and after the producer's answer, and the events of the stream.
use cria.Prelude.{ℕ, ◌%◌, ◌^◌, String, Option, none, some, or_else, [], ◌∷◌, ◌++◌, if◌then◌else◌}
use Prim.Native.Nat.{min}
use cria.Table.{DashMap}
use cria.Text.{trim, is_empty}
use cria.Config.{Config, request_topic_for_model}
use cria.Pb.{event_type_of, event_type_name}
use cria.State
use cria.State.{queued_record}
use cria.Streaming
use cria.Streaming.{Mpsc, Status, StreamItem, event, error}
use cria.Telemetry.{inc, active_streams_inc, requests_total}
use cria.Kafka.Messages.{Kafka, InferenceJob}
use cria.Kafka.Producer.{KafkaProducer, ProduceResult, produced, refused}
use cria.Gateway.{Gateway}
use cria.Api.Begin.{Ambient}
use cria.Api.Finish.{produce}

pub record InferRequest : Type 0 where
  pub request_id : Option String
  pub model_id : Option String
  pub prompt : String
  pub max_tokens : Option ℕ

-- The status codes of HTTP that the handlers answer.
pub data StatusCode : Type 0 where
  bad_request conflict service_unavailable not_found : StatusCode

pub record HttpError : Type 0 where
  pub code : StatusCode
  pub message : String

abbrev pub http_error : StatusCode → String → HttpError
http_error code message = record { code = code; message = message }

-- `filter(|text| !text.trim().is_empty()).unwrap_or_else(|| default)`.
unfoldable pub filled_or : Option String → String → String
filled_or none default = default
filled_or (some text) default = if is_empty (trim text) then default else text

unfoldable pub infer_job : Config → InferRequest → Ambient → InferenceJob
infer_job c request amb = record {
  request_id = filled_or request.request_id amb.uuid;
  model_id = filled_or request.model_id c.default_model_id;
  prompt = trim request.prompt;
  max_tokens = min (or_else request.max_tokens c.default_max_tokens) c.max_tokens_limit;
  sampling = none;
  stream_options = none;
  deadline_ms = c.request_timeout_ms % 2 ^ 64;
  timestamp_ms = amb.stamped_at;
}

-- Where the first half leads.
pub data InferBegun : Type 0 where
  rejected : HttpError → InferBegun
  enqueuing : InferenceJob → ℕ → InferBegun

pub data InferAnswer : Type 0 where
  http_refusal : HttpError → InferAnswer
  sse : ℕ → InferAnswer

module _ ⦃d : DashMap⦄ ⦃ch : Mpsc⦄ where
  -- From the insertion of the record on. A conflict leaves both the record and the raised gauge.
  unfoldable pub infer_admit : Gateway → InferenceJob → Ambient → Gateway × InferBegun
  infer_admit g job amb =
      let state' = State.insert g.state (queued_record job.request_id amb.queued_at) in
      let metrics' = g.metrics ++ active_streams_inc ∷ [] in
      elim (Streaming.register g.streams job.request_id).1 [
        | none ↦ (
          record g { state = state'; metrics = metrics' },
          rejected (http_error conflict "request_id already active"),
        )
        | some receiver ↦ (
          record g {
            state = state';
            streams = (Streaming.register g.streams job.request_id).0;
            metrics = metrics';
          },
          enqueuing job receiver,
        )
      ]

  unfoldable pub infer_begin : Config → Gateway → InferRequest → Ambient → Gateway × InferBegun
  infer_begin c g request amb =
      if is_empty (trim request.prompt)
      then (g, rejected (http_error bad_request "prompt must not be empty"))
      else elim (request_topic_for_model c (filled_or request.model_id c.default_model_id)) [
        | none ↦ (g, rejected (http_error bad_request "unknown model_id"))
        | some topic ↦ infer_admit g (infer_job c request amb) amb
      ]

  -- What follows the producer's answer: a refusal is answered, and nothing is undone.
  unfoldable pub infer_end : Gateway → ℕ → ProduceResult → Gateway × InferAnswer
  infer_end g receiver produced =
      (record g { metrics = g.metrics ++ inc requests_total ∷ [] }, sse receiver)
  infer_end g receiver (refused reason) =
      (g, http_refusal (http_error service_unavailable "failed to enqueue request"))

module _ ⦃d : DashMap⦄ ⦃ch : Mpsc⦄ ⦃k : Kafka⦄ where
  infer_conclude : KafkaProducer → Gateway → InferBegun → Gateway × InferAnswer
  infer_conclude p g (rejected e) = (g, http_refusal e)
  infer_conclude p g (enqueuing job receiver) =
      let (g', result) = produce p g job in infer_end g' receiver result

  -- `infer` with no other task between its halves.
  unfoldable pub infer :
      Config → KafkaProducer → Gateway → InferRequest → Ambient → Gateway × InferAnswer
  unfolding infer_conclude produce
  infer c p g request amb =
      let (g', begun) = infer_begin c g request amb in infer_conclude p g' begun

pub record BffTokenEvent : Type 0 where
  pub request_id : String
  pub sequence_number : ℕ
  pub token : String
  pub event_type : String
  pub error_message : String

-- `BffTokenEvent::from_status`.
unfoldable pub from_status : Status → BffTokenEvent
from_status status = record {
  request_id = "";
  sequence_number = 0;
  token = "";
  event_type = "TOKEN_EVENT_TYPE_FAILED";
  error_message = status.message;
}

-- What the browser is sent for an item of its stream.
unfoldable pub sse_event : StreamItem → BffTokenEvent
sse_event (event e) = record {
  request_id = e.request_id;
  sequence_number = e.sequence_number;
  token = e.token;
  event_type = event_type_name (event_type_of e.event_type);
  error_message = e.error_message;
}
sse_event (error status) = from_status status
