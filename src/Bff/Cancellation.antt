-- ===== src/Bff/Cancellation.antt =====
-- The browser's `cancel` beside the gRPC one.
use cria.Prelude.{
  ◌+◌, String, ◌≡◌, refl, false, [], ◌∷◌, arith, if◌then◌else◌, Bool-cases, inl, inr,
}
use cria.Table.{DashMap}
use cria.Text.{trim, is_empty}
use cria.Pb
use cria.State
use cria.Streaming.{Mpsc}
use cria.Telemetry.{inc, cancelled_requests, is_inc, calls, calls-append}
use cria.Kafka.Messages.{Kafka}
use cria.Kafka.Producer.{KafkaProducer}
use cria.Gateway.{Gateway}
use cria.Api.Begin.{Ambient}
use cria.Api.Control
use cria.Api.Control.{Reply, response, refusal}
use cria.Bff.Views
use cria.Bff.Views.{CancelResponse}

-- The gRPC request that says what the browser's front end does.
abbrev pub as_grpc : String → Pb.CancelRequest
as_grpc id = record { request_id = id; reason = "cancelled from web UI" }

abbrev pub as_rpc : CancelResponse → Reply Pb.CancelResponse
as_rpc r =
    response (record { request_id = r.request_id; accepted = r.accepted; message = r.message })

module _ ⦃d : DashMap⦄ ⦃ch : Mpsc⦄ ⦃k : Kafka⦄ where
  -- For an identifier that is trimmed and not empty the browser's cancel answers what the gRPC one
  -- answers and leaves the same records, streams and published messages; but the gRPC one counts
  -- an accepted cancellation, and the browser's does not.
  pub cancel-as_grpc :
      (p : KafkaProducer) (g : Gateway) (id : String) (amb : Ambient)
      → trim id ≡ id
      → is_empty id ≡ false
      → let (g', reply) = Views.cancel p g id amb in
        let (h, answer) = Control.cancel p g (as_grpc id) amb in
        (answer ≡ as_rpc reply)
        × (h.state ≡ g'.state)
        × (h.streams ≡ g'.streams)
        × (h.sent ≡ g'.sent)
        × (calls (is_inc cancelled_requests) h.metrics
            ≡ calls (is_inc cancelled_requests) g'.metrics + (if reply.accepted then 1 else 0))
  unfolding Views.cancel Control.cancel Control.announce calls
  cancel-as_grpc p g id amb trimmed solid =
      let added =
        calls-append (is_inc cancelled_requests) g.metrics (inc cancelled_requests ∷ []) in
      elim (Bool-cases (State.cancel g.state id "cancelled from web UI" amb.queued_at).1) [
        | inl accepted ↦
            rw (trimmed, solid, accepted, Views.cancel, Control.cancel)
              (refl, refl, refl, refl, omega (arith, added))
        | inr idle ↦
            rw (trimmed, solid, idle, Views.cancel, Control.cancel)
              (refl, refl, refl, refl, omega arith)
      ]
