-- ===== src/Kafka/Router/Late.antt =====
-- Events that come for a request that is over: a terminal status does not hold against them.
use mathlib.Core.Option
use cria.Prelude.{ℕ, ◌+◌, ◌≡◌, refl, ap, true, some, arith, eq_refl, if◌then◌else◌}
use cria.Table.{DashMap}
use cria.Pb
use cria.State
use cria.State.{RequestRecord, RequestStatusInternal, is_terminal, is_terminal_status, stamp}
use cria.State.Lookup.{get-record_event}
use cria.State.Activity.{active_count-update}
use cria.Streaming.{Mpsc}
use cria.Kafka.Messages.{TokenEventEnvelope, TokenEventKind, into_proto}
use cria.Kafka.Router.{route_one}
use cria.Kafka.Router.Step.{state-route_one, get-route_one, observe_kind}
use cria.Kafka.Router.Records.{status_of}
use cria.Gateway.{Gateway}

module _ ⦃d : DashMap⦄ where
  active_count-record_event :
      (s : State.RequestState) (e : Pb.TokenEvent)
      → State.active_count (State.record_event s e) ≡ State.active_count s
  unfolding State.active_count State.record_event
  active_count-record_event s e = refl

module _ ⦃d : DashMap⦄ ⦃ch : Mpsc⦄ where
  -- An event for a request whose record is terminal is obeyed all the same: the record gets the
  -- event's status, and an event that is not terminal makes the request active again, which takes
  -- one of the places that admission control counts.
  pub late_event :
      (g : Gateway) (e : TokenEventEnvelope) (now : ℕ) (r : RequestRecord)
      → State.get g.state e.request_id ≡ some r
      → is_terminal r ≡ true
      → let g' = (route_one g e now) in
        (Option.map (λ q. q.status) (State.get g'.state e.request_id)
          ≡ some (status_of e.event_type))
        × (State.active_count g'.state
            ≡ State.active_count g.state
              + (if is_terminal_status (status_of e.event_type) then 0 else 1))
  late_event g e now r known over = (
    rw (get-route_one, eq_refl, known) (status_is e.event_type),
    ground (
      arith,
      ap State.active_count (state-route_one g e now),
      active_count-update (State.record_event g.state (into_proto e)) e.request_id
          (observe_kind e.event_type e) now,
      get-record_event g.state (into_proto e) e.request_id,
      active_count-record_event g.state (into_proto e),
      known,
    ),
  )
    where
      status_is : (k : TokenEventKind) → some (observe_kind k e r).status ≡ some (status_of k)
      status_is k = ground arith
