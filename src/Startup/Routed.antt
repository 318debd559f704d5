-- ===== src/Startup/Routed.antt =====
-- The gateway checks a model against the routes that the producer was made with.
use cria.Prelude.{
  ℕ, Bool-cases, String, ◌≡◌, refl, none, some, List, [], ◌∷◌, ◌++◌, arith, ◌⊎◌, Option-cases, inl,
  inr,
}
use cria.Table.{DashMap}
use cria.HashMap
use cria.Config.{Config, request_topic_for_model}
use cria.Config.Parse.{ok, >>=-eq-ok}
use cria.Pb.{InferenceRequest}
use cria.Streaming.{Mpsc}
use cria.Kafka.Messages.{Kafka, InferenceJob, FutureRecord}
use cria.Kafka.Producer.{
  KafkaProducer, ProduceResult, produced, refused, not_encoded, not_delivered, send,
  produce_request,
}
use cria.Gateway.{Gateway}
use cria.Api.Begin.{Ambient, enqueuing, submit_begin}
use cria.Api.Finish.{produce}
use cria.Api.Admission.{submit_begin-IsAdmitted}
use cria.Bff.Infer
use cria.Bff.Infer.{InferRequest, infer_job, infer_begin, infer_admit, filled_or}
use cria.Text.{trim, is_empty}
use cria.Streaming
use cria.Startup.Clients.{Outside, context, producer_settings, new_producer}

pub new_producer-is :
    (o : Outside) (c : Config) (p : KafkaProducer)
    → new_producer o c ≡ ok p
    → p ≡ record { request_topics = c.model_routes; control_topic = c.control_topic }
unfolding new_producer
new_producer-is o c p h =
    let (made, _, rest) =
      >>=-eq-ok (context "failed to create Kafka producer" (o.create (producer_settings c)))
        (λ made. ok (record { request_topics = c.model_routes; control_topic = c.control_topic }))
        h in
    ground (arith, rest)

module _ ⦃k : Kafka⦄ where
  sent_or_not :
      (sent : List FutureRecord) (r : FutureRecord)
      → ((send sent r).1 ≡ produced) ⊎ ((send sent r).1 ≡ refused not_delivered)
  unfolding send
  sent_or_not sent r = elim (Bool-cases (k.delivers sent r)) [
    | inl there ↦ inl (rw there refl)
    | inr lost ↦ inr (rw lost refl)
  ]

  -- The job was given to the producer's client: on the topic of its model, under its identifier.
  pub record IsGiven (c : Config) (job : InferenceJob) (sent sent' : List FutureRecord)
      (result : ProduceResult) : Type 0 where
    pub topic : String
    pub routed : request_topic_for_model c job.model_id ≡ some topic
    pub payload : String
    pub encoded : k.encode_job job ≡ some payload
    pub log : sent' ≡ sent ++ record { topic = topic; key = job.request_id; payload = payload } ∷ []
    pub result_is : (result ≡ produced) ⊎ (result ≡ refused not_delivered)

  produce_request-routed :
      (o : Outside) (c : Config) (p : KafkaProducer) (job : InferenceJob) (sent : List FutureRecord)
      (topic : String)
      → new_producer o c ≡ ok p
      → request_topic_for_model c job.model_id ≡ some topic
      → let (sent', result) = produce_request p job sent in
        ((k.encode_job job ≡ none) × (sent' ≡ sent) × (result ≡ refused not_encoded))
        ⊎ IsGiven c job sent sent' result
  unfolding produce_request request_topic_for_model HashMap.get send
  produce_request-routed o c p job sent topic made routed =
      let same = new_producer-is o c p made in
      elim (Option-cases (k.encode_job job)) [
        | inl bad ↦
            let path : produce_request p job sent ≡ (sent, refused not_encoded) =
              rw (same, routed, bad, produce_request) refl in
            rw path (inl (bad, refl, refl))
        | inr (payload, encoded) ↦
            let record_of : FutureRecord = record {
              topic = topic;
              key = job.request_id;
              payload = payload;
            } in
            let path : produce_request p job sent ≡ send sent record_of =
              rw (same, routed, encoded, produce_request) refl in
            rw path (
              inr (record {
                topic = topic;
                routed = routed;
                payload = payload;
                encoded = encoded;
                log = refl;
                result_is = sent_or_not sent record_of;
              }))
      ]

module _ ⦃d : DashMap⦄ ⦃ch : Mpsc⦄ where
  -- A job that one of the two front ends hands to the producer.
  pub data IsAdmittedJob (c : Config) (job : InferenceJob) : Type 0 where
    by_submit :
        (g : Gateway) (request : InferenceRequest) (amb : Ambient) (receiver : ℕ)
        → (submit_begin c g request amb).1 ≡ enqueuing job receiver
        → IsAdmittedJob c job
    by_infer :
        (g : Gateway) (request : InferRequest) (amb : Ambient) (receiver : ℕ)
        → (infer_begin c g request amb).1 ≡ Infer.enqueuing job receiver
        → IsAdmittedJob c job

  infer_admit-job :
      (g : Gateway) (job job' : InferenceJob) (amb : Ambient) (receiver : ℕ)
      → (infer_admit g job amb).1 ≡ Infer.enqueuing job' receiver
      → job' ≡ job
  unfolding infer_admit
  infer_admit-job g job job' amb receiver h =
      elim (Option-cases (Streaming.register g.streams job.request_id).1) [
        | inl taken ↦ absurd (ground (arith, h, taken))
        | inr (r, free) ↦ ground (arith, h, free)
      ]

  admitted-routed :
      (c : Config) (job : InferenceJob)
      → IsAdmittedJob c job
      → (topic : String) × (request_topic_for_model c job.model_id ≡ some topic)
  unfolding infer_begin infer_job
  admitted-routed c job (by_submit g request amb receiver h) =
      (submit_begin-IsAdmitted c g request amb job receiver h).routed
  admitted-routed c job (by_infer g request amb receiver h) =
      elim (Bool-cases (is_empty (trim request.prompt))) [
        | inl blank ↦ absurd (ground (arith, h, blank))
        | inr solid ↦
            elim (Option-cases
              (request_topic_for_model c (filled_or request.model_id c.default_model_id))) [
                | inl unknown ↦ absurd (ground (arith, h, solid, unknown))
                | inr (topic, known) ↦
                    let same =
                      infer_admit-job g (infer_job c request amb) job amb receiver
                        (rw (solid, known, infer_begin) at h) in
                    (topic, rw same known)
              ]
      ]

module _ ⦃d : DashMap⦄ ⦃ch : Mpsc⦄ ⦃k : Kafka⦄ where
  pub produce-routed :
      (o : Outside) (c : Config) (p : KafkaProducer) (g : Gateway) (job : InferenceJob)
      → new_producer o c ≡ ok p
      → IsAdmittedJob c job
      → let (g', result) = produce p g job in
        ((k.encode_job job ≡ none) × (g'.sent ≡ g.sent) × (result ≡ refused not_encoded))
        ⊎ IsGiven c job g.sent g'.sent result
  unfolding produce
  produce-routed o c p g job made admitted =
      let (topic, routed) = admitted-routed c job admitted in
      produce_request-routed o c p job g.sent topic made routed
