-- ===== src/System/Served.antt =====
-- A request from its admission to the end of its stream, however the steps of the tasks are
-- interleaved.
use cria.Prelude.{
  ℕ, String, ◌≡◌, refl, ◌∙◌, ap, false, none, some, List, [], ◌∷◌, map, arith, eq_refl, ◌↔◌,
}
use cria.Table.{DashMap}
use cria.Config.{Config}
use cria.Pb.{InferenceRequest}
use cria.Streaming
use cria.Streaming.{Mpsc, StreamRegistry, event, sender_of}
use cria.Streaming.Wiring.{IsWired, register-IsWired, sender_of-register}
use cria.Streaming.Touch.{OtherId, IsServed}
use cria.Streaming.Delivery.{IsHeld, accepted_items, accepted-register}
use cria.Kafka.Messages.{Kafka, InferenceJob}
use cria.Kafka.Producer.{KafkaProducer, produced}
use cria.Api.Begin.{Ambient, enqueuing, submit_begin}
use cria.Api.Finish.{produce}
use cria.Api.Admission.{submit_begin-IsAdmitted}
use cria.Bff.Infer.{InferRequest, infer_job}
use cria.Bff.Leaks.{IsServable, infer_id, infer_begin-servable, infer_admit-free}
use cria.System.{System, Action, submit_starts, infer_starts, submit_waits, infer_waits, step, run}
use cria.System.Pending.{handed_by, MayTouch}
use cria.System.Service.{of_request, until_end, has_end, handed, served-run}

module _ ⦃d : DashMap⦄ ⦃ch : Mpsc⦄ where
  pub registered-IsServed :
      (s : StreamRegistry) (id : String)
      → IsWired s
      → sender_of s id ≡ none
      → IsServed (Streaming.register s id).0 id (ch.opened s.net)
        × (accepted_items (Streaming.register s id).0 (ch.opened s.net) ≡ [])
  registered-IsServed s id w free = (
    record {
      wired = register-IsWired s id w;
      registered = ground (arith, sender_of-register s id id free, eq_refl id);
    },
    ground (arith, accepted-register s id (ch.opened s.net) free),
  )

module _ ⦃d : DashMap⦄ ⦃ch : Mpsc⦄ ⦃k : Kafka⦄ where
  pub streams-submit_starts :
      (c : Config) (p : KafkaProducer) (s : System) (request : InferenceRequest) (amb : Ambient)
      (job : InferenceJob) (receiver : ℕ)
      → (submit_begin c s.gateway request amb).1 ≡ enqueuing job receiver
      → (step c p s (submit_starts request amb)).gateway.streams
        ≡ (Streaming.register s.gateway.streams job.request_id).0
  unfolding step submit_waits produce
  streams-submit_starts c p s request amb job receiver h =
      let fine = submit_begin-IsAdmitted c s.gateway request amb job receiver h in
      rw h (ap (λ g. g.streams) fine.after)

  submit_starts-MayTouch :
      (c : Config) (p : KafkaProducer) (s : System) (request : InferenceRequest) (amb : Ambient)
      (job : InferenceJob) (receiver : ℕ) (M : String → Type 0)
      → (submit_begin c s.gateway request amb).1 ≡ enqueuing job receiver
      → (produce p (submit_begin c s.gateway request amb).0 job).1 ≡ produced
      → MayTouch M s
      → MayTouch M (step c p s (submit_starts request amb))
  unfolding step submit_waits
  submit_starts-MayTouch c p s request amb job receiver M h taken alone =
      rw h record { submissions = (rw taken tt, alone.submissions); replays = alone.replays }

  -- A gRPC submission that the producer takes, in a system in which no two requests share a
  -- channel and nothing else waits under its identifier, and then any steps of all the tasks in
  -- any order, its own second half among them or not: the client, if it keeps its receiver, is
  -- handed exactly its own request's events, in the order in which the router handed them over, up
  -- to and including the first terminal one, and its stream is registered until then and no
  -- longer.
  pub submit_starts-served :
      (c : Config) (p : KafkaProducer) (s : System) (request : InferenceRequest) (amb : Ambient)
      (job : InferenceJob) (receiver : ℕ) (actions : List Action)
      → IsWired s.gateway.streams
      → MayTouch (OtherId job.request_id) s
      → (submit_begin c s.gateway request amb).1 ≡ enqueuing job receiver
      → (produce p (submit_begin c s.gateway request amb).0 job).1 ≡ produced
      → IsHeld receiver
      → let s' = run c p s (submit_starts request amb ∷ actions) in
        let mine = of_request job.request_id (handed c p s (submit_starts request amb ∷ actions)) in
        (accepted_items s'.gateway.streams receiver ≡ map event (until_end mine))
        × ((sender_of s'.gateway.streams job.request_id ≡ some receiver) ↔ (has_end mine ≡ false))
  unfolding run handed handed_by
  submit_starts-served c p s request amb job receiver actions w alone h taken held =
      let fine = submit_begin-IsAdmitted c s.gateway request amb job receiver h in
      let s' = step c p s (submit_starts request amb) in
      let path = streams-submit_starts c p s request amb job receiver h in
      let (served, fresh) = registered-IsServed s.gateway.streams job.request_id w fine.free in
      let (out, still) =
        served-run c p s' actions job.request_id receiver
          (record {
            served = rw (path, fine.receiver_is) served;
            alone =
                submit_starts-MayTouch c p s request amb job receiver (OtherId job.request_id) h
                  taken alone;
          })
          held in
      let empty : accepted_items s'.gateway.streams receiver ≡ [] =
        rw (path, fine.receiver_is) fresh in
      (out ∙ rw empty refl, still)

  streams-infer_starts :
      (c : Config) (p : KafkaProducer) (s : System) (request : InferRequest) (amb : Ambient)
      → IsServable c request
      → sender_of s.gateway.streams (infer_id request amb) ≡ none
      → (step c p s (infer_starts request amb)).gateway.streams
        ≡ (Streaming.register s.gateway.streams (infer_id request amb)).0
  unfolding step infer_waits produce infer_job
  streams-infer_starts c p s request amb fine free =
      rw
        (
          infer_begin-servable c s.gateway request amb fine,
          infer_admit-free s.gateway (infer_job c request amb) amb free,
        )
        refl

  infer_starts-MayTouch :
      (c : Config) (p : KafkaProducer) (s : System) (request : InferRequest) (amb : Ambient)
      (M : String → Type 0)
      → IsServable c request
      → sender_of s.gateway.streams (infer_id request amb) ≡ none
      → MayTouch M s
      → MayTouch M (step c p s (infer_starts request amb))
  unfolding step infer_waits infer_job
  infer_starts-MayTouch c p s request amb M fine free alone =
      rw
        (
          infer_begin-servable c s.gateway request amb fine,
          infer_admit-free s.gateway (infer_job c request amb) amb free,
        )
        record { submissions = alone.submissions; replays = alone.replays }

  -- A servable request of a browser under a free identifier, in a system in which no two requests
  -- share a channel and nothing waits under that identifier, and then any steps of all the tasks
  -- in any order, whatever the producer answers: the client, if it keeps its receiver, is handed
  -- exactly its own request's events, in the order in which the router handed them over, up to and
  -- including the first terminal one, and its stream is registered until then and no longer.
  pub infer_starts-served :
      (c : Config) (p : KafkaProducer) (s : System) (request : InferRequest) (amb : Ambient)
      (actions : List Action)
      → IsWired s.gateway.streams
      → MayTouch (OtherId (infer_id request amb)) s
      → IsServable c request
      → sender_of s.gateway.streams (infer_id request amb) ≡ none
      → IsHeld (ch.opened s.gateway.streams.net)
      → let s' = run c p s (infer_starts request amb ∷ actions) in
        let id = infer_id request amb in
        let receiver = ch.opened s.gateway.streams.net in
        let mine = of_request id (handed c p s (infer_starts request amb ∷ actions)) in
        (accepted_items s'.gateway.streams receiver ≡ map event (until_end mine))
        × ((sender_of s'.gateway.streams id ≡ some receiver) ↔ (has_end mine ≡ false))
  unfolding run handed handed_by
  infer_starts-served c p s request amb actions w alone fine free held =
      let s' = step c p s (infer_starts request amb) in
      let id = infer_id request amb in
      let receiver = ch.opened s.gateway.streams.net in
      let path = streams-infer_starts c p s request amb fine free in
      let (served, fresh) = registered-IsServed s.gateway.streams id w free in
      let (out, still) =
        served-run c p s' actions id receiver
          (record {
            served = rw path served;
            alone = infer_starts-MayTouch c p s request amb (OtherId id) fine free alone;
          })
          held in
      let empty : accepted_items s'.gateway.streams receiver ≡ [] = rw path fresh in
      (out ∙ rw empty refl, still)
