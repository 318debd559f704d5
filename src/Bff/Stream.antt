-- ===== src/Bff/Stream.antt =====
-- From a browser's request to the end of its stream.
use cria.Prelude.{
  ℕ, ◌≡◌, refl, ◌∙◌, ap, none, some, List, [], ◌∷◌, ◌++◌, map, arith, eq_refl, if◌then◌else◌,
}
use cria.Table.{DashMap}
use cria.Config.{Config}
use cria.Pb.{event_type_name}
use cria.State
use cria.State.{queued_record}
use cria.State.Lookup.{get-queued}
use cria.Streaming.{Mpsc, sender_of}
use cria.Streaming.Wiring.{IsWired, register-IsWired, sender_of-register}
use cria.Streaming.Delivery.{IsHeld, accepted_items, accepted-register}
use cria.Kafka.Messages.{Kafka, TokenEventEnvelope, into_proto, proto_type}
use cria.Kafka.Producer.{KafkaProducer, produced}
use cria.Kafka.Router.Batch.{route_all, own}
use cria.Kafka.Router.Step.{into_proto-type}
use cria.Kafka.Router.Records.{record-route_all, last_status, highest}
use cria.Kafka.Router.Delivery.{until_terminal, has_terminal, item, delivered-route_all}
use cria.Gateway.{Gateway}
use cria.Api.Begin.{Ambient}
use cria.Api.Finish.{produce}
use cria.Bff.Infer.{
  InferRequest, BffTokenEvent, sse, infer_job, infer_begin, infer_end, infer, sse_event,
}
use cria.Bff.Leaks.{IsServable, infer_id, infer_begin-servable, infer_admit-free, kept}

-- An event as the browser reads it: the number of its type gives way to the name.
abbrev pub shown : TokenEventEnvelope × ℕ → BffTokenEvent
shown (e, now) = record {
  request_id = e.request_id;
  sequence_number = e.sequence_number;
  token = e.token;
  event_type = event_type_name (proto_type e.event_type);
  error_message = (into_proto e).error_message;
}

shown_is : (p : TokenEventEnvelope × ℕ) → sse_event (item p) ≡ shown p
unfolding sse_event
shown_is (e, now) = rw into_proto-type (unfold into_proto in refl)

all_shown : (ps : List (TokenEventEnvelope × ℕ)) → map sse_event (map item ps) ≡ map shown ps
all_shown [] = refl
all_shown (p ∷ ps) = rw (shown_is p, all_shown ps) refl

module _ ⦃d : DashMap⦄ ⦃ch : Mpsc⦄ ⦃k : Kafka⦄ where
  infer-produced_path :
      (c : Config) (p : KafkaProducer) (g : Gateway) (request : InferRequest) (amb : Ambient)
      → IsServable c request
      → sender_of g.streams (infer_id request amb) ≡ none
      → (produce p (infer_begin c g request amb).0 (infer_job c request amb)).1 ≡ produced
      → infer c p g request amb
        ≡ infer_end
            (produce p (kept g (infer_job c request amb) amb) (infer_job c request amb)).0
            (ch.opened g.streams.net)
            produced
  unfolding infer
  infer-produced_path c p g request amb s free sent =
      let job = infer_job c request amb in
      let path =
        infer_begin-servable c g request amb s
        ∙ infer_admit-free g job amb (unfold infer_job in free) in
      let sent' : (produce p (kept g job amb) job).1 ≡ produced = rw path at sent in
      rw (path, sent') refl

  infer-accepted :
      (c : Config) (p : KafkaProducer) (g : Gateway) (request : InferRequest) (amb : Ambient)
      → IsWired g.streams
      → IsServable c request
      → sender_of g.streams (infer_id request amb) ≡ none
      → (produce p (infer_begin c g request amb).0 (infer_job c request amb)).1 ≡ produced
      → let id = infer_id request amb in
        let receiver = ch.opened g.streams.net in
        let (g', answer) = infer c p g request amb in
        (answer ≡ sse receiver)
        × (State.get g'.state id ≡ some (queued_record id amb.queued_at))
        × IsWired g'.streams
        × (sender_of g'.streams id ≡ some receiver)
        × (accepted_items g'.streams receiver ≡ [])
  infer-accepted c p g request amb w s free sent =
      let id = infer_id request amb in
      rw (infer-produced_path c p g request amb s free sent) (
        unfold infer_end produce infer_job in
        (
          refl,
          rw (get-queued, eq_refl) refl,
          register-IsWired g.streams id w,
          ground (arith, sender_of-register g.streams id id free, eq_refl id),
          ground (arith, accepted-register g.streams id (ch.opened g.streams.net) free),
        ))

  -- A servable request of a browser under a free identifier that the producer takes, whose
  -- receiver is kept, and after which the router handles any list of events with no other task
  -- between: the browser is shown exactly the request's own events, with the names of their types,
  -- in the order of the topic up to the first terminal one, the stream is unregistered if and only
  -- if there was one, the record has the status of the last own event (queued without one) and the
  -- highest sequence number of its tokens and completions.
  pub infer-served :
      (c : Config) (p : KafkaProducer) (g : Gateway) (request : InferRequest) (amb : Ambient)
      (es : List (TokenEventEnvelope × ℕ))
      → IsWired g.streams
      → IsServable c request
      → sender_of g.streams (infer_id request amb) ≡ none
      → (produce p (infer_begin c g request amb).0 (infer_job c request amb)).1 ≡ produced
      → IsHeld (ch.opened g.streams.net)
      → let receiver = ch.opened g.streams.net in
        let (g', answer) = infer c p g request amb in
        let mine = own (infer_id request amb) es in
        (answer ≡ sse receiver)
        × (map sse_event (accepted_items (route_all g' es).streams receiver)
            ≡ map shown (until_terminal mine))
        × (sender_of (route_all g' es).streams (infer_id request amb)
            ≡ (if has_terminal mine then none else some receiver))
        × ((r : State.RequestRecord) × (State.get (route_all g' es).state (infer_id request amb)
              ≡ some r)
            × (r.status ≡ last_status State.RequestStatusInternal.queued mine)
            × (r.emitted_tokens ≡ highest mine))
  infer-served c p g request amb es w s free sent held =
      let id = infer_id request amb in
      let receiver = ch.opened g.streams.net in
      let (answer, known, wired, registered, fresh) =
        infer-accepted c p g request amb w s free sent in
      let g' = (infer c p g request amb).0 in
      let (handed, ended) = delivered-route_all g' es id receiver wired registered held in
      let (r, there, status, tokens) =
        record-route_all g' es id (queued_record id amb.queued_at) known in
      (
        answer,
        ap (map sse_event) (handed ∙ ap (λ l. l ++ map item (until_terminal (own id es))) fresh)
            ∙ all_shown (until_terminal (own id es)),
        ended,
        (r, there, unfold queued_record in status, unfold queued_record in omega (arith, tokens)),
      )
