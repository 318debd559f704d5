-- ===== src/Api/Control.antt =====
-- `cancel` and `get_status`.
use cria.Prelude.{String, Bool, none, some, or_else, [], ◌∷◌, ◌++◌, if◌then◌else◌}
use cria.Table.{DashMap}
use cria.Text.{trim, is_empty}
use cria.Pb.{CancelRequest, CancelResponse, StatusResponse, status_as_i32}
use cria.State
use cria.Streaming.{Mpsc, Status, invalid_argument, not_found}
use cria.Telemetry.{inc, cancelled_requests}
use cria.Kafka.Messages.{Kafka, request_status}
use cria.Kafka.Producer.{KafkaProducer, produce_cancellation}
use cria.Gateway.{Gateway}
use cria.Api.Begin.{Ambient, status}

-- `Result<Response<A>, Status>`.
pub data Reply (A : Type 0) : Type 0 where
  response : A → Reply A
  refusal : Status → Reply A

abbrev pub cancel_message : Bool → String
cancel_message accepted =
    if accepted then "cancellation requested" else "request not found or already terminal"

module _ ⦃d : DashMap⦄ ⦃ch : Mpsc⦄ ⦃k : Kafka⦄ where
  -- The clock is read for the record and for the event; that the event was not published is logged.
  unfoldable pub announce : KafkaProducer → Gateway → String → String → Ambient → Gateway
  announce p g request_id reason amb = record g {
    sent =
        (produce_cancellation p
          (record { request_id = request_id; reason = reason; timestamp_ms = amb.stamped_at })
          g.sent).0;
  }

  unfoldable pub cancel :
      KafkaProducer → Gateway → CancelRequest → Ambient → Gateway × Reply CancelResponse
  unfolding announce
  cancel p g request amb =
      let request_id = trim request.request_id in
      if is_empty request_id
      then (g, refusal (status invalid_argument "request_id must not be empty"))
      else (let (state', accepted) = State.cancel g.state request_id request.reason amb.queued_at in
          let g' = record g { state = state' } in
          (
            if accepted
                then announce p (record g' { metrics = g'.metrics ++ inc cancelled_requests ∷ [] })
                    request_id request.reason amb
                else g',
            response (record {
              request_id = request_id;
              accepted = accepted;
              message = cancel_message accepted;
            }),
          ))

module _ ⦃d : DashMap⦄ ⦃ch : Mpsc⦄ where
  unfoldable pub get_status : Gateway → String → Reply StatusResponse
  get_status g request_id = elim (State.get g.state request_id) [
    | none ↦ refusal (status not_found "request not found")
    | some r ↦ response (record {
      request_id = r.request_id;
      status = status_as_i32 (request_status r.status);
      emitted_tokens = r.emitted_tokens;
      worker_id = or_else r.worker_id "";
      error_message = or_else r.error_message "";
      created_at_ms = r.created_at_ms;
      updated_at_ms = r.updated_at_ms;
    })
  ]
