-- ===== src/Examples/Routing.antt =====
-- The router of token events, on a topic of four events.
use mathlib.Core.Option
use mathlib.Core.List.{Memᴰ}
use Prim.Native.Nat.{max}
use cria.Prelude.{ℕ, ◌+◌, ◌≡◌, refl, some, List, [], ◌∷◌, ◌++◌, if◌then◌else◌}
use cria.Table.{assoc_map, find, put, without}
use cria.State
use cria.State.{RequestRecord, RequestStatusInternal, queued_record, is_terminal_status}
use cria.Streaming
use cria.Streaming.{sender_of, StreamItem}
use cria.Streaming.Delivery.{IsHeld}
use cria.Telemetry.{calls, is_inc, is_up, is_down, tokens_total}
use cria.Kafka.Messages.{TokenEventEnvelope, TokenEventKind}
use cria.Kafka.Router.{route_events, route_one, Message, payload, no_payload, consumer_error}
use cria.Kafka.Router.Batch.{own, valid_events, route_events-eq-route_all, route_all}
use cria.Kafka.Router.Step.{is_terminal_kind}
use cria.Kafka.Router.Records.{status_of}
use cria.Kafka.Router.Records.{record-route_all, last_status, highest}
use cria.Kafka.Router.Redelivery.{events_of, tokens_of, redelivery-tokens}
use cria.Kafka.Router.Accounting.{counted_by, kinds_that, metrics-route_all}
use cria.Kafka.Router.Late.{late_event}
use cria.Gateway.{Gateway}
use cria.Examples.Setup.{channels, broker, token_event, topic_events, busy}

pub always-IsHeld : (c : ℕ) → IsHeld c
always-IsHeld c net x = refl

pub busy_known : State.get busy.state "r1" ≡ some (queued_record "r1" 1)
unfolding State.get State.insert queued_record put without find
busy_known = refl

pub busy_registered : sender_of busy.streams "r1" ≡ some 0
unfolding sender_of Streaming.register Streaming.new put without find
busy_registered = refl

record-route_all_example :
    (r' : RequestRecord) × (State.get (route_all busy topic_events).state "r1" ≡ some r')
    × (r'.status ≡ last_status (queued_record "r1" 1).status (own "r1" topic_events))
    × (r'.emitted_tokens
        ≡ max (queued_record "r1" 1).emitted_tokens (highest (own "r1" topic_events)))
record-route_all_example = record-route_all busy topic_events "r1" (queued_record "r1" 1) busy_known

-- The token and the completion come a second time, later.
abbrev delivered_again : List (TokenEventEnvelope × ℕ)
delivered_again =
    (token_event "r1" TokenEventKind.token 1, 20)
    ∷ (token_event "r1" TokenEventKind.completed 1, 21)
    ∷ []

handled_before :
    (e : TokenEventEnvelope) → Memᴰ e (events_of delivered_again) → Memᴰ e (events_of topic_events)
handled_before e (Memᴰ.head same) = Memᴰ.tail (Memᴰ.tail (Memᴰ.head same))
handled_before e (Memᴰ.tail (Memᴰ.head same)) = Memᴰ.tail (Memᴰ.tail (Memᴰ.tail (Memᴰ.head same)))
handled_before e (Memᴰ.tail (Memᴰ.tail m)) = elim m [ ]

redelivery-tokens_example :
    tokens_of (State.get (route_all busy (topic_events ++ delivered_again)).state "r1")
    ≡ tokens_of (State.get (route_all busy topic_events).state "r1")
redelivery-tokens_example = redelivery-tokens busy topic_events delivered_again "r1" handled_before

metrics-route_all_example :
    (calls (is_inc tokens_total) (route_all busy topic_events).metrics
      ≡ calls (is_inc tokens_total) busy.metrics
        + kinds_that (counted_by tokens_total) topic_events)
    × (calls is_down (route_all busy topic_events).metrics
        ≡ calls is_down busy.metrics + kinds_that is_terminal_kind topic_events)
    × (calls is_up (route_all busy topic_events).metrics ≡ calls is_up busy.metrics)
metrics-route_all_example = metrics-route_all busy topic_events tokens_total

abbrev mixed : List (Message × ℕ)
mixed = (payload "", 1) ∷ (no_payload, 2) ∷ (payload "r1", 3) ∷ (consumer_error "lost", 4) ∷ []

abbrev over : Gateway
over = record busy { state = (State.cancel busy.state "r1" "stop" 4).0 }

abbrev over_record : RequestRecord
over_record = record (queued_record "r1" 1) {
  status = RequestStatusInternal.cancelled;
  cancellation_reason = some "stop";
  updated_at_ms = 4;
}

over_known : State.get over.state "r1" ≡ some over_record
unfolding State.get State.insert State.cancel queued_record put without find
over_known = refl

late_event_example :
    (Option.map
        (λ q. q.status)
        (State.get (route_one over (token_event "r1" TokenEventKind.token 2) 5).state "r1")
      ≡ some (status_of TokenEventKind.token))
    × (State.active_count (route_one over (token_event "r1" TokenEventKind.token 2) 5).state
        ≡ State.active_count over.state
          + (if is_terminal_status (status_of TokenEventKind.token) then 0 else 1))
late_event_example =
    late_event over (token_event "r1" TokenEventKind.token 2) 5 over_record over_known refl

route_events-eq-route_all_example : route_events busy mixed ≡ route_all busy (valid_events mixed)
route_events-eq-route_all_example = route_events-eq-route_all busy mixed
