-- ===== src/Bff/Agreement.antt =====
-- The two front ends show the same record.
use cria.Prelude.{ℕ, zero, suc, String, ◌≡◌, refl, arith, Option-cases, inl, inr}
use cria.Table.{DashMap}
use cria.Pb
use cria.Pb.{status_as_i32, status_name}
use cria.State
use cria.State.{RequestRecord, RequestStatusInternal}
use cria.Streaming.{Mpsc}
use cria.Kafka.Messages.{request_status}
use cria.Gateway.{Gateway}
use cria.Api.Control.{Reply, response, refusal, get_status}
use cria.Bff.Infer.{http_error, not_found}
use cria.Bff.Views.{StatusReply, found, missing, status}

-- The name that proto/inference.proto gives to a number of `RequestStatus`.
abbrev pub name_of_number : ℕ → String
name_of_number zero = "REQUEST_STATUS_UNSPECIFIED"
name_of_number (suc zero) = "REQUEST_STATUS_QUEUED"
name_of_number (suc (suc zero)) = "REQUEST_STATUS_RUNNING"
name_of_number (suc (suc (suc zero))) = "REQUEST_STATUS_COMPLETED"
name_of_number (suc (suc (suc (suc zero)))) = "REQUEST_STATUS_FAILED"
name_of_number _ = "REQUEST_STATUS_CANCELLED"

-- An answer of the gRPC service, as the browser's front end puts it.
abbrev pub as_http : Reply Pb.StatusResponse → StatusReply
as_http (refusal s) = missing (http_error not_found s.message)
as_http (response r) = found (record {
  request_id = r.request_id;
  status = name_of_number r.status;
  emitted_tokens = r.emitted_tokens;
  worker_id = r.worker_id;
  error_message = r.error_message;
})

name_of_status :
    (s : RequestStatusInternal)
    → status_name (request_status s) ≡ name_of_number (status_as_i32 (request_status s))
unfolding status_name request_status status_as_i32
name_of_status RequestStatusInternal.queued = refl
name_of_status _ = refl

module _ ⦃d : DashMap⦄ ⦃ch : Mpsc⦄ where
  -- For every identifier the browser is shown what the gRPC get_status answers: the same fields,
  -- the status by the name of its number, and not found where the other answers that.
  pub status-as_http : (g : Gateway) (id : String) → status g id ≡ as_http (get_status g id)
  unfolding status get_status
  status-as_http g id = elim (Option-cases (State.get g.state id)) [
    | inl unknown ↦ rw (unknown, status, get_status) refl
    | inr (r, known) ↦ ground (arith, known, name_of_status r.status)
  ]
