-- ===== src/Bff/Views.antt =====
-- `models`, `status` and `cancel` of the browser's front end.
use cria.Prelude.{ℕ, String, Bool, none, some, or_else, List, if◌then◌else◌}
use cria.Table.{DashMap}
use cria.Config.{Config, model_ids}
use cria.Pb.{status_name}
use cria.State
use cria.Streaming.{Mpsc}
use cria.Kafka.Messages.{Kafka, request_status}
use cria.Kafka.Producer.{KafkaProducer}
use cria.Gateway.{Gateway}
use cria.Api.Begin.{Ambient}
use cria.Api.Control.{cancel_message, announce}
use cria.Bff.Infer.{HttpError, http_error, not_found}

pub record ModelsResponse : Type 0 where
  pub models : List String
  pub default_model_id : String

unfoldable pub models : Config → ModelsResponse
models c = record { models = model_ids c; default_model_id = c.default_model_id }

pub record StatusResponse : Type 0 where
  pub request_id : String
  pub status : String
  pub emitted_tokens : ℕ
  pub worker_id : String
  pub error_message : String

pub data StatusReply : Type 0 where
  found : StatusResponse → StatusReply
  missing : HttpError → StatusReply

pub record CancelResponse : Type 0 where
  pub request_id : String
  pub accepted : Bool
  pub message : String

module _ ⦃d : DashMap⦄ ⦃ch : Mpsc⦄ where
  unfoldable pub status : Gateway → String → StatusReply
  status g request_id = elim (State.get g.state request_id) [
    | none ↦ missing (http_error not_found "request not found")
    | some r ↦ found (record {
      request_id = r.request_id;
      status = status_name (request_status r.status);
      emitted_tokens = r.emitted_tokens;
      worker_id = or_else r.worker_id "";
      error_message = or_else r.error_message "";
    })
  ]

module _ ⦃d : DashMap⦄ ⦃ch : Mpsc⦄ ⦃k : Kafka⦄ where
  -- The path's identifier is taken as it is, and no metric is touched.
  unfoldable pub cancel : KafkaProducer → Gateway → String → Ambient → Gateway × CancelResponse
  unfolding announce
  cancel p g request_id amb =
      let (state', accepted) =
        State.cancel g.state request_id "cancelled from web UI" amb.queued_at in
      let g' = record g { state = state' } in
      (
        if accepted then announce p g' request_id "cancelled from web UI" amb else g',
        record { request_id = request_id; accepted = accepted; message = cancel_message accepted },
      )
