-- ===== src/Api/Cancellation.antt =====
-- What a cancellation does, and what can follow it.
use mathlib.Core.Option
use mathlib.Core.List.{append-nil}
use cria.Prelude.{
  ℕ, ◌+◌, String, ◌≡◌, refl, ap, false, none, some, or_else, List, [], ◌∷◌, ◌++◌, arith, str_eq,
  eq_refl, if◌then◌else◌,
}
use cria.Table.{DashMap}
use cria.Text.{trim, is_empty}
use cria.Pb.{CancelRequest, status_as_i32}
use cria.State
use cria.State.{RequestRecord, RequestStatusInternal, is_terminal}
use cria.State.Lookup.{
  get-cancel, cancel-accepted, cancel-refused, is_active_entry, cancel_if_active, cancel_record,
}
use cria.Streaming.{Mpsc}
use cria.Telemetry.{inc, cancelled_requests, is_inc, calls, calls-append}
use cria.Kafka.Messages.{Kafka, FutureRecord, request_status}
use cria.Kafka.Producer
use cria.Kafka.Producer.{KafkaProducer, produce_cancellation}
use cria.Gateway.{Gateway}
use cria.Api.Begin.{Ambient}
use cria.Api.Control.{response, cancel_message, cancel, get_status}

module _ ⦃d : DashMap⦄ ⦃ch : Mpsc⦄ ⦃k : Kafka⦄ where
  -- A record of the control topic under the identifier, or none where the event cannot be encoded.
  abbrev pub told_workers : KafkaProducer → String → String → ℕ → List FutureRecord
  told_workers p id reason now =
      elim (k.encode_cancellation
        (record { request_id = id; reason = reason; timestamp_ms = now })) [
          | none ↦ []
          | some payload ↦ record { topic = p.control_topic; key = id; payload = payload } ∷ []
        ]

  sent-produce_cancellation :
      (p : KafkaProducer) (id reason : String) (now : ℕ) (sent : List FutureRecord)
      → (produce_cancellation p
          (record { request_id = id; reason = reason; timestamp_ms = now })
          sent).0
        ≡ sent ++ told_workers p id reason now
  unfolding produce_cancellation Producer.send
  sent-produce_cancellation p id reason now sent = ground (arith, append-nil sent)

  state-cancel :
      (p : KafkaProducer) (g : Gateway) (request : CancelRequest) (amb : Ambient)
      → is_empty (trim request.request_id) ≡ false
      → (cancel p g request amb).0.state
        ≡ (State.cancel g.state (trim request.request_id) request.reason amb.queued_at).0
  unfolding cancel
  state-cancel p g request amb solid = ground (arith, solid)

  reply-cancel :
      (p : KafkaProducer) (g : Gateway) (request : CancelRequest) (amb : Ambient)
      → is_empty (trim request.request_id) ≡ false
      → let accepted = is_active_entry (State.get g.state (trim request.request_id)) in
        (cancel p g request amb).1
        ≡ response (record {
          request_id = trim request.request_id;
          accepted = accepted;
          message = cancel_message accepted;
        })
  unfolding cancel
  reply-cancel p g request amb solid =
      rw (← cancel-accepted g.state (trim request.request_id) request.reason amb.queued_at)
        (rw solid refl)

  unchanged-cancel :
      (p : KafkaProducer) (g : Gateway) (request : CancelRequest) (amb : Ambient)
      → is_empty (trim request.request_id) ≡ false
      → is_active_entry (State.get g.state (trim request.request_id)) ≡ false
      → (cancel p g request amb).0 ≡ g
  unfolding cancel
  unchanged-cancel p g request amb solid idle =
      rw (solid, cancel-refused g.state (trim request.request_id) request.reason amb.queued_at idle)
        refl

  rest-cancel :
      (p : KafkaProducer) (g : Gateway) (request : CancelRequest) (amb : Ambient)
      → is_empty (trim request.request_id) ≡ false
      → let id = trim request.request_id in
        let accepted = is_active_entry (State.get g.state id) in
        let g' = (cancel p g request amb).0 in
        (g'.streams ≡ g.streams)
        × (calls (is_inc cancelled_requests) g'.metrics
            ≡ calls (is_inc cancelled_requests) g.metrics + (if accepted then 1 else 0))
        × (g'.sent
            ≡ g.sent ++ (if accepted then told_workers p id request.reason amb.stamped_at else []))
  unfolding cancel calls
  rest-cancel p g request amb solid =
      rw (← cancel-accepted g.state (trim request.request_id) request.reason amb.queued_at) (
        ground (arith, solid),
        ground (
          arith,
          solid,
          calls-append (is_inc cancelled_requests) g.metrics (inc cancelled_requests ∷ []),
        ),
        ground (
          arith,
          solid,
          sent-produce_cancellation p (trim request.request_id) request.reason amb.stamped_at
              g.sent,
          append-nil g.sent,
        ),
      )

  -- The gRPC cancel of a request that is named is accepted exactly if there is a record that is
  -- not terminal; then that record alone is cancelled with the reason, one cancellation is
  -- counted, and the producer is handed one record more, for the control topic, under the
  -- request's identifier, with the encoded cancellation, or none where it cannot be encoded;
  -- otherwise the records, the count of cancellations and the producer's log stay. The streams
  -- stay in either case.
  pub cancel-effect :
      (p : KafkaProducer) (g : Gateway) (request : CancelRequest) (amb : Ambient) (j : String)
      → is_empty (trim request.request_id) ≡ false
      → let id = trim request.request_id in
        let accepted = is_active_entry (State.get g.state id) in
        let (g', reply) = cancel p g request amb in
        (reply
          ≡ response
              (record { request_id = id; accepted = accepted; message = cancel_message accepted }))
        × (State.get g'.state j ≡ (
            if str_eq id j
            then Option.map (cancel_if_active request.reason amb.queued_at) (State.get g.state id)
            else State.get g.state j))
        × (g'.streams ≡ g.streams)
        × (calls (is_inc cancelled_requests) g'.metrics
            ≡ calls (is_inc cancelled_requests) g.metrics + (if accepted then 1 else 0))
        × (g'.sent
            ≡ g.sent ++ (if accepted then told_workers p id request.reason amb.stamped_at else []))
  cancel-effect p g request amb j solid =
      let (streams, counted, published) = rest-cancel p g request amb solid in
      (
        reply-cancel p g request amb solid,
        rw (state-cancel p g request amb solid)
            (get-cancel g.state (trim request.request_id) j request.reason amb.queued_at),
        streams,
        counted,
        published,
      )

  refused-cancel :
      (p : KafkaProducer) (g : Gateway) (request : CancelRequest) (amb : Ambient)
      → is_empty (trim request.request_id) ≡ false
      → is_active_entry (State.get g.state (trim request.request_id)) ≡ false
      → cancel p g request amb ≡ (
        g,
        response (record {
          request_id = trim request.request_id;
          accepted = false;
          message = "request not found or already terminal";
        }),
      )
  unfolding cancel
  refused-cancel p g request amb solid idle =
      rw (solid, cancel-refused g.state (trim request.request_id) request.reason amb.queued_at idle)
        refl

  status_of_cancelled :
      (g : Gateway) (id : String) (reason : String) (now : ℕ) (r : RequestRecord)
      → State.get g.state id ≡ some (cancel_record reason now r)
      → get_status g id
        ≡ response (record {
          request_id = r.request_id;
          status = 5;
          emitted_tokens = r.emitted_tokens;
          worker_id = or_else r.worker_id "";
          error_message = or_else r.error_message "";
          created_at_ms = r.created_at_ms;
          updated_at_ms = now;
        })
  unfolding get_status status_as_i32 request_status
  status_of_cancelled g id reason now r known = rw (known, get_status) refl

  -- After an accepted gRPC cancel get_status answers CANCELLED with the rest of the record, and a
  -- second cancel under the same trimmed name is answered as refused and leaves the gateway as it
  -- is.
  pub cancel-twice :
      (p : KafkaProducer) (g : Gateway) (request again : CancelRequest) (amb amb' : Ambient)
      (r : RequestRecord)
      → is_empty (trim request.request_id) ≡ false
      → trim again.request_id ≡ trim request.request_id
      → State.get g.state (trim request.request_id) ≡ some r
      → is_terminal r ≡ false
      → let g' = (cancel p g request amb).0 in
        (get_status g' (trim request.request_id)
          ≡ response (record {
            request_id = r.request_id;
            status = 5;
            emitted_tokens = r.emitted_tokens;
            worker_id = or_else r.worker_id "";
            error_message = or_else r.error_message "";
            created_at_ms = r.created_at_ms;
            updated_at_ms = amb.queued_at;
          }))
        × (cancel p g' again amb' ≡ (
          g',
          response (record {
            request_id = trim request.request_id;
            accepted = false;
            message = "request not found or already terminal";
          }),
        ))
  cancel-twice p g request again amb amb' r solid same known active =
      let id = trim request.request_id in
      let g' = (cancel p g request amb).0 in
      let now_cancelled : State.get g'.state id
          ≡ some (cancel_record request.reason amb.queued_at r) =
        ground (arith, (cancel-effect p g request amb id solid).1, eq_refl id) in
      (
        status_of_cancelled g' id request.reason amb.queued_at r now_cancelled,
        rw (← same) (
            refused-cancel p g' again amb' (rw same solid)
              (rw same (ap is_active_entry now_cancelled))),
      )
