-- ===== src/Api/Stream.antt =====
-- From the submission of a request to the end of its stream.
use cria.Prelude.{
  ℕ, ◌≡◌, refl, ◌∙◌, ap, none, some, List, [], ◌++◌, map, arith, eq_refl, if◌then◌else◌,
}
use cria.Table.{DashMap}
use cria.Config.{Config}
use cria.Pb.{InferenceRequest}
use cria.State
use cria.State.{queued_record}
use cria.State.Lookup.{get-queued}
use cria.Streaming.{Mpsc, sender_of}
use cria.Streaming.Wiring.{IsWired, register-IsWired, sender_of-register}
use cria.Streaming.Delivery.{IsHeld, accepted_items, accepted-register}
use cria.Kafka.Messages.{Kafka, InferenceJob, TokenEventEnvelope}
use cria.Kafka.Producer.{KafkaProducer, produced}
use cria.Kafka.Router.Batch.{route_all, own}
use cria.Kafka.Router.Records.{record-route_all, last_status, highest}
use cria.Kafka.Router.Delivery.{until_terminal, has_terminal, item, delivered-route_all}
use cria.Gateway.{Gateway}
use cria.Api.Begin.{Ambient, enqueuing, submit_begin}
use cria.Api.Finish.{stream, produce, submit_end, submit}
use cria.Api.Admission.{admitted, submit_begin-IsAdmitted}

module _ ⦃d : DashMap⦄ ⦃ch : Mpsc⦄ ⦃k : Kafka⦄ where
  submit-produced_path :
      (c : Config) (p : KafkaProducer) (g : Gateway) (request : InferenceRequest) (amb : Ambient)
      (job : InferenceJob) (receiver : ℕ)
      → (submit_begin c g request amb).1 ≡ enqueuing job receiver
      → (submit_begin c g request amb).0 ≡ admitted g job amb
      → (produce p (admitted g job amb) job).1 ≡ produced
      → submit c p g request amb
        ≡ submit_end (produce p (admitted g job amb) job).0 job receiver amb produced
  unfolding submit
  submit-produced_path c p g request amb job receiver h after sent = rw (h, after, sent) refl

  -- What a submission that was accepted leaves: its record is queued, its stream is registered under
  -- a new channel that holds nothing, and no two requests share a channel.
  submit-accepted :
      (c : Config) (p : KafkaProducer) (g : Gateway) (request : InferenceRequest) (amb : Ambient)
      (job : InferenceJob) (receiver : ℕ)
      → IsWired g.streams
      → (submit_begin c g request amb).1 ≡ enqueuing job receiver
      → (produce p (submit_begin c g request amb).0 job).1 ≡ produced
      → let (g', answer) = submit c p g request amb in
        (answer ≡ stream receiver)
        × (State.get g'.state job.request_id ≡ some (queued_record job.request_id amb.queued_at))
        × IsWired g'.streams
        × (sender_of g'.streams job.request_id ≡ some receiver)
        × (accepted_items g'.streams receiver ≡ [])
  submit-accepted c p g request amb job receiver w h sent =
      let fine = submit_begin-IsAdmitted c g request amb job receiver h in
      let path =
        submit-produced_path c p g request amb job receiver h fine.after (rw fine.after at sent) in
      rw path (
        unfold submit_end produce in
        (
          refl,
          rw (get-queued, eq_refl) refl,
          register-IsWired g.streams job.request_id w,
          ground (
            arith,
            sender_of-register g.streams job.request_id job.request_id fine.free,
            fine.receiver_is,
            eq_refl job.request_id,
          ),
          ground (
            arith,
            accepted-register g.streams job.request_id receiver fine.free,
            fine.receiver_is,
          ),
        ))

  -- A gRPC submission that the producer takes, whose client keeps its receiver, and after which
  -- the router handles any list of events with no other task between: the client is handed exactly
  -- the request's own events in the order of the topic up to the first terminal one, the stream is
  -- unregistered if and only if there was one, the record has the status of the last own event
  -- (queued without one) and the highest sequence number of its tokens and completions.
  pub submit-served :
      (c : Config) (p : KafkaProducer) (g : Gateway) (request : InferenceRequest) (amb : Ambient)
      (job : InferenceJob) (receiver : ℕ) (es : List (TokenEventEnvelope × ℕ))
      → IsWired g.streams
      → (submit_begin c g request amb).1 ≡ enqueuing job receiver
      → (produce p (submit_begin c g request amb).0 job).1 ≡ produced
      → IsHeld receiver
      → let (g', answer) = submit c p g request amb in
        let mine = own job.request_id es in
        (answer ≡ stream receiver)
        × (accepted_items (route_all g' es).streams receiver ≡ map item (until_terminal mine))
        × (sender_of (route_all g' es).streams job.request_id
            ≡ (if has_terminal mine then none else some receiver))
        × ((r : State.RequestRecord) × (State.get (route_all g' es).state job.request_id ≡ some r)
            × (r.status ≡ last_status State.RequestStatusInternal.queued mine)
            × (r.emitted_tokens ≡ highest mine))
  submit-served c p g request amb job receiver es w h sent held =
      let (answer, known, wired, registered, fresh) =
        submit-accepted c p g request amb job receiver w h sent in
      let g' = (submit c p g request amb).0 in
      let (handed, ended) =
        delivered-route_all g' es job.request_id receiver wired registered held in
      let (r, there, status, tokens) =
        record-route_all g' es job.request_id (queued_record job.request_id amb.queued_at) known in
      (
        answer,
        handed ∙ ap (λ l. l ++ map item (until_terminal (own job.request_id es))) fresh,
        ended,
        (r, there, unfold queued_record in status, unfold queued_record in omega (arith, tokens)),
      )
