-- ===== src/Kafka/Router/Batch.antt =====
-- The loop of the router as a fold over the events that parse.
use cria.Prelude.{
  String, str_eq, if◌then◌else◌, ℕ, ◌≡◌, refl, Option, none, some, List, [], ◌∷◌, Option-cases, inl,
  inr,
}
use cria.Table.{DashMap}
use cria.Streaming.{Mpsc}
use cria.Kafka.Messages.{TokenEventEnvelope, Kafka}
use cria.Kafka.Router.{
  Message, payload, no_payload, consumer_error, route_one, route_message, route_events,
}
use cria.Gateway.{Gateway}

module _ ⦃d : DashMap⦄ ⦃ch : Mpsc⦄ where
  -- The events in the order of the topic.
  unfoldable pub route_all : Gateway → List (TokenEventEnvelope × ℕ) → Gateway
  route_all g [] = g
  route_all g ((e, now) ∷ es) = route_all (route_one g e now) es

-- The events of one request.
unfoldable pub own : String → List (TokenEventEnvelope × ℕ) → List (TokenEventEnvelope × ℕ)
own j [] = []
own j ((e, now) ∷ es) =
    let rest = own j es in if str_eq e.request_id j then (e, now) ∷ rest else rest

module _ ⦃k : Kafka⦄ where
  parsed : Message → Option TokenEventEnvelope
  parsed (payload text) = k.parse_envelope text
  parsed no_payload = none
  parsed (consumer_error text) = none

  -- The messages that carry an event, as those events.
  unfoldable pub valid_events : List (Message × ℕ) → List (TokenEventEnvelope × ℕ)
  unfolding parsed
  valid_events [] = []
  valid_events ((m, now) ∷ ms) =
      let rest = valid_events ms in elim (parsed m) [ none ↦ rest | some e ↦ (e, now) ∷ rest ]

module _ ⦃d : DashMap⦄ ⦃ch : Mpsc⦄ ⦃k : Kafka⦄ where
  -- Empty messages, payloads that do not parse and errors of the consumer change nothing and stop
  -- nothing: the loop does what handling the parsed events one by one does.
  pub route_events-eq-route_all :
      (g : Gateway) (ms : List (Message × ℕ)) → route_events g ms ≡ route_all g (valid_events ms)
  unfolding route_events route_all valid_events parsed
  route_events-eq-route_all g [] = refl
  route_events-eq-route_all g ((payload text, now) ∷ ms) =
      elim (Option-cases (k.parse_envelope text)) [
        | inl bad ↦ rw (bad, route_message, valid_events) (route_events-eq-route_all g ms)
        | inr (e, good) ↦
            rw (good, route_message, valid_events)
              (route_events-eq-route_all (route_one g e now) ms)
      ]
  route_events-eq-route_all g ((no_payload, now) ∷ ms) = route_events-eq-route_all g ms
  route_events-eq-route_all g ((consumer_error text, now) ∷ ms) = route_events-eq-route_all g ms
