-- ===== src/Examples/Browser.antt =====
-- The browser's front end, on an idle gateway and on one with a queued request.
use cria.Prelude.{if◌then◌else◌, ◌+◌, String, ◌≡◌, refl, none, some}
use cria.Table.{assoc_map, find, put, without}
use cria.Text.{trim, trim_start, trim_end, is_whitespace}
use cria.HashMap
use cria.Config.{request_topic_for_model}
use cria.State
use cria.State.{queued_record}
use cria.Streaming
use cria.Streaming.{sender_of}
use cria.Telemetry.{cancelled_requests, is_inc, calls, is_up, is_down}
use cria.Kafka.Producer
use cria.Kafka.Producer.{produced, refused, not_delivered, produce_request}
use cria.Api.Finish.{produce}
use cria.Api.Control
use cria.Gateway.{Gateway}
use cria.Kafka.Router.{route_one}
use cria.Kafka.Messages.{TokenEventKind}
use cria.Kafka.Router.Delivery.{sender_of-route_one}
use cria.Bff.Infer.{
  enqueuing, InferRequest, rejected, http_refusal, http_error, conflict, service_unavailable,
  filled_or, infer_job, infer_begin, infer,
}
use cria.Bff.Views
use cria.Bff.Leaks.{IsServable, infer_id, infer_begin-unlimited, infer-refused}
use cria.Bff.Cancellation.{as_grpc, as_rpc, cancel-as_grpc}
use cria.Bff.Agreement.{as_http, status-as_http}
use cria.Examples.Setup.{
  broker, channels, broken_broker, config, producer, idle, ambient, busy, token_event,
}
use cria.Examples.Routing.{busy_registered}

abbrev pub wanting : String → InferRequest
wanting id = record { request_id = some id; model_id = none; prompt = "hi"; max_tokens = none }

pub servable : (id : String) → IsServable config (wanting id)
unfolding request_topic_for_model filled_or trim trim_start trim_end is_whitespace HashMap.get
    HashMap.insert HashMap.empty find put without
servable id = record { solid = refl; routed = ("jobs", refl) }

free : sender_of busy.streams (infer_id (wanting "r2") ambient) ≡ none
unfolding filled_or trim trim_start trim_end is_whitespace sender_of Streaming.register
    Streaming.new find put without
free = refl

unknown : State.get busy.state (infer_id (wanting "r2") ambient) ≡ none
unfolding filled_or trim trim_start trim_end is_whitespace State.get State.insert State.new
    queued_record find put without
unknown = refl

taken : sender_of busy.streams (infer_id (wanting "r1") ambient) ≡ some 0
unfolding filled_or trim trim_start trim_end is_whitespace
taken = busy_registered

pub idle_free : sender_of idle.streams (infer_id (wanting "r1") ambient) ≡ none
unfolding sender_of Streaming.new find
idle_free = refl

not_sent :
    (produce ⦃k = broken_broker⦄ producer
      (infer_begin config idle (wanting "r1") ambient).0
      (infer_job config (wanting "r1") ambient)).1
    ≡ refused not_delivered
unfolding produce produce_request Producer.send infer_job filled_or trim trim_start trim_end
    is_whitespace HashMap.insert HashMap.empty find put without
not_sent = refl

-- A token of another request was routed since.
abbrev refused_gateway : Gateway
refused_gateway =
    route_one (infer ⦃k = broken_broker⦄ config producer idle (wanting "r1") ambient).0
      (token_event "r2" TokenEventKind.token 1) 5

still_there :
    sender_of refused_gateway.streams (infer_id (wanting "r1") ambient)
    ≡ sender_of
        (infer ⦃k = broken_broker⦄ config producer idle (wanting "r1") ambient).0.streams
        (infer_id (wanting "r1") ambient)
still_there =
    sender_of-route_one (infer ⦃k = broken_broker⦄ config producer idle (wanting "r1") ambient).0
      (token_event "r2" TokenEventKind.token 1) 5 (infer_id (wanting "r1") ambient)

infer_begin-unlimited_example :
    ((infer_begin config busy (wanting "r2") ambient).1
      ≡ enqueuing (infer_job config (wanting "r2") ambient) (channels.opened busy.streams.net))
    × (State.active_count (infer_begin config busy (wanting "r2") ambient).0.state
        ≡ State.active_count busy.state + 1)
infer_begin-unlimited_example =
    infer_begin-unlimited config busy (wanting "r2") ambient (servable "r2") free unknown

infer-refused_example :
    let (g', answer) = infer ⦃k = broken_broker⦄ config producer idle (wanting "r1") ambient in
    (answer ≡ http_refusal (http_error service_unavailable "failed to enqueue request"))
    × (State.get g'.state (infer_id (wanting "r1") ambient)
        ≡ some (queued_record (infer_id (wanting "r1") ambient) 1))
    × (sender_of g'.streams (infer_id (wanting "r1") ambient) ≡ some 0)
    × (calls is_up g'.metrics ≡ calls is_up idle.metrics + 1)
    × (calls is_down g'.metrics ≡ calls is_down idle.metrics)
    × ((infer_begin config refused_gateway (wanting "r1") ambient).1
        ≡ rejected (http_error conflict "request_id already active"))
unfolding Streaming.new
infer-refused_example =
    infer-refused ⦃k = broken_broker⦄ config producer idle refused_gateway (wanting "r1")
      (wanting "r1") ambient ambient not_delivered (servable "r1") idle_free not_sent
      (servable "r1") refl still_there

status-as_http_example : Views.status busy "r1" ≡ as_http (Control.get_status busy "r1")
status-as_http_example = status-as_http busy "r1"

trimmed : trim "r1" ≡ "r1"
unfolding trim trim_start trim_end is_whitespace
trimmed = refl

cancel-as_grpc_example :
    let (g', reply) = Views.cancel producer busy "r1" ambient in
    let (h, answer) = Control.cancel producer busy (as_grpc "r1") ambient in
    (answer ≡ as_rpc reply)
    × (h.state ≡ g'.state)
    × (h.streams ≡ g'.streams)
    × (h.sent ≡ g'.sent)
    × (calls (is_inc cancelled_requests) h.metrics
        ≡ calls (is_inc cancelled_requests) g'.metrics + (if reply.accepted then 1 else 0))
cancel-as_grpc_example = cancel-as_grpc producer busy "r1" ambient trimmed refl
