-- ===== src/Kafka/Router.antt =====
-- `route_one` and the loop of `route_events`. The state changes of `route_one` come before its one
-- await, the send to the client; the model has the two halves apart.
pub mod Batch
pub mod Step
pub mod Records
pub mod Delivery
pub mod Late
pub mod Accounting
pub mod Redelivery
use cria.Prelude.{ℕ, String, Bool, true, false, none, some, List, [], ◌∷◌, ◌++◌, if◌then◌else◌}
use cria.Table.{DashMap}
use cria.Pb.{TokenEvent, TokenEventType, event_type_of}
use cria.State
use cria.State.{
  RequestState, mark_running, note_token, finish_completed, finish_failed, finish_cancelled,
}
use cria.Streaming
use cria.Streaming.{Mpsc, event}
use cria.Telemetry.{
  Metrics, inc, active_streams_dec, tokens_total, completed_requests, failed_requests,
  cancelled_requests,
}
use cria.Kafka.Messages.{TokenEventEnvelope, Kafka, into_proto}
use cria.Gateway.{Gateway}

-- `is_terminal` of `route_one`, and the same test in the replay of cached events.
abbrev pub is_terminal_event : TokenEventType → Bool
is_terminal_event TokenEventType.completed = true
is_terminal_event TokenEventType.failed = true
is_terminal_event TokenEventType.cancelled = true
is_terminal_event _ = false

-- The metrics that the `match` of `route_one` touches.
abbrev pub event_metrics : TokenEventType → Metrics
event_metrics TokenEventType.token = inc tokens_total ∷ []
event_metrics TokenEventType.completed = inc completed_requests ∷ active_streams_dec ∷ []
event_metrics TokenEventType.failed = inc failed_requests ∷ active_streams_dec ∷ []
event_metrics TokenEventType.cancelled = inc cancelled_requests ∷ active_streams_dec ∷ []
event_metrics _ = []

-- A message of the consumer's stream, with the clock's reading when it was handled.
pub data Message : Type 0 where
  payload : String → Message
  no_payload : Message
  consumer_error : String → Message

module _ ⦃d : DashMap⦄ where
  -- The `match` of `route_one` on the table of records.
  unfoldable pub apply_event : TokenEventType → TokenEvent → ℕ → RequestState → RequestState
  unfolding mark_running note_token finish_completed finish_failed finish_cancelled
  apply_event TokenEventType.started p now s = mark_running s p.request_id p.worker_id now
  apply_event TokenEventType.token p now s =
      note_token s p.request_id p.sequence_number p.worker_id now
  apply_event TokenEventType.completed p now s =
      finish_completed s p.request_id p.sequence_number p.worker_id now
  apply_event TokenEventType.failed p now s = finish_failed s p.request_id p.error_message now
  apply_event TokenEventType.cancelled p now s = finish_cancelled s p.request_id p.error_message now
  apply_event TokenEventType.unspecified p now s = s

module _ ⦃d : DashMap⦄ ⦃ch : Mpsc⦄ where
  -- `route_one` up to the send.
  unfoldable pub note_event : TokenEvent → ℕ → Gateway → Gateway
  note_event p now g =
      let type = event_type_of p.event_type in
      record g {
        state = apply_event type p now (State.record_event g.state p);
        metrics = g.metrics ++ event_metrics type;
      }

  -- The send, whose failure is only logged, and what follows it.
  unfoldable pub deliver_event : TokenEvent → Gateway → Gateway
  deliver_event p g =
      let after = (Streaming.send g.streams p.request_id (event p)).0 in
      record g {
        streams =
            if is_terminal_event (event_type_of p.event_type)
            then Streaming.unregister after p.request_id
            else after;
      }

  unfoldable pub route_one : Gateway → TokenEventEnvelope → ℕ → Gateway
  unfolding note_event deliver_event
  route_one g e now = deliver_event (into_proto e) (note_event (into_proto e) now g)

  module _ ⦃k : Kafka⦄ where
    route_message : Gateway → Message → ℕ → Gateway
    route_message g (payload text) now = elim (k.parse_envelope text) [
      | none ↦ g
      | some e ↦ route_one g e now
    ]
    route_message g no_payload now = g
    route_message g (consumer_error text) now = g

    unfoldable pub route_events : Gateway → List (Message × ℕ) → Gateway
    unfolding route_message
    route_events g [] = g
    route_events g ((m, now) ∷ ms) = route_events (route_message g m now) ms
