-- ===== src/Kafka/Router/Step.antt =====
-- One event: what `route_one` does to each part of the gateway.
use mathlib.Core.Option
use Prim.Native.Nat.{max}
use cria.Prelude.{ℕ, String, ◌≡◌, refl, Bool, some, or_else, [], ◌∷◌, ◌++◌, str_eq, if◌then◌else◌}
use cria.Table.{DashMap}
use cria.Pb.{event_type_of, event_type_of-as_i32}
use cria.State
use cria.State.{RequestRecord, RequestState, RequestStatusInternal, stamp, update}
use cria.State.Lookup.{get-update, get-record_event, events-record_event, events-update}
use cria.Streaming
use cria.Streaming.{Mpsc, event}
use cria.Kafka.Messages.{TokenEventEnvelope, TokenEventKind, proto_type, into_proto}
use cria.Kafka.Router.{is_terminal_event, event_metrics, apply_event, route_one}
use cria.Gateway.{Gateway}

abbrev pub is_terminal_kind : TokenEventKind → Bool
is_terminal_kind k = is_terminal_event (proto_type k)

-- What an event makes of the record of its request.
abbrev pub observe_kind : TokenEventKind → TokenEventEnvelope → RequestRecord → RequestRecord
observe_kind TokenEventKind.started e r = record r {
  status = RequestStatusInternal.running;
  worker_id = some e.worker_id;
}
observe_kind TokenEventKind.token e r = record r {
  status = RequestStatusInternal.running;
  emitted_tokens = max r.emitted_tokens e.sequence_number;
  worker_id = some e.worker_id;
}
observe_kind TokenEventKind.completed e r = record r {
  status = RequestStatusInternal.completed;
  emitted_tokens = max r.emitted_tokens e.sequence_number;
  worker_id = some e.worker_id;
}
observe_kind TokenEventKind.failed e r = record r {
  status = RequestStatusInternal.failed;
  error_message = some (or_else e.error_message "");
}
observe_kind TokenEventKind.cancelled e r = record r {
  status = RequestStatusInternal.cancelled;
  error_message = some (or_else e.error_message "");
}

abbrev pub observe : TokenEventEnvelope → ℕ → RequestRecord → RequestRecord
observe e now = stamp (observe_kind e.event_type e) now

-- The number that into_proto writes for the kind of an event is read back by route_one as the type
-- of that kind.
pub into_proto-type :
    (e : TokenEventEnvelope) → event_type_of (into_proto e).event_type ≡ proto_type e.event_type
unfolding into_proto
into_proto-type e = event_type_of-as_i32 (proto_type e.event_type)

module _ ⦃d : DashMap⦄ where
  apply_event-update :
      (k : TokenEventKind) (e : TokenEventEnvelope) (now : ℕ) (s : RequestState)
      → apply_event (proto_type k) (into_proto e) now s
        ≡ update s e.request_id (observe_kind k e) now
  unfolding apply_event into_proto
  apply_event-update TokenEventKind.started e now s = refl
  apply_event-update _ e now s = refl

module _ ⦃d : DashMap⦄ ⦃ch : Mpsc⦄ where
  pub state-route_one :
      (g : Gateway) (e : TokenEventEnvelope) (now : ℕ)
      → (route_one g e now).state
        ≡ update
            (State.record_event g.state (into_proto e))
            e.request_id
            (observe_kind e.event_type e)
            now
  unfolding route_one
  state-route_one g e now = rw into_proto-type (apply_event-update e.event_type e now _)

  -- An event changes the record of its own request alone.
  pub get-route_one :
      (g : Gateway) (e : TokenEventEnvelope) (now : ℕ) (j : String)
      → State.get (route_one g e now).state j ≡ (
          if str_eq e.request_id j
          then Option.map (observe e now) (State.get g.state e.request_id)
          else State.get g.state j)
  get-route_one g e now j = rw (state-route_one, get-update, get-record_event, get-record_event)

  -- It is cached at the end of the events of its request.
  pub events-route_one :
      (g : Gateway) (e : TokenEventEnvelope) (now : ℕ) (j : String)
      → State.events (route_one g e now).state j ≡ (
          if str_eq e.request_id j
          then State.events g.state j ++ into_proto e ∷ []
          else State.events g.state j)
  events-route_one g e now j =
      rw (state-route_one, events-update)
        (unfold into_proto in events-record_event g.state (into_proto e) j)

  pub metrics-route_one :
      (g : Gateway) (e : TokenEventEnvelope) (now : ℕ)
      → (route_one g e now).metrics ≡ g.metrics ++ event_metrics (proto_type e.event_type)
  unfolding route_one
  metrics-route_one g e now = rw into_proto-type

  pub streams-route_one :
      (g : Gateway) (e : TokenEventEnvelope) (now : ℕ)
      → (route_one g e now).streams ≡ (
          let after = (Streaming.send g.streams e.request_id (event (into_proto e))).0 in
          if is_terminal_kind e.event_type then Streaming.unregister after e.request_id else after)
  unfolding route_one into_proto
  streams-route_one g e now = rw (event_type_of-as_i32)
