-- ===== src/System/Recorded.antt =====
-- The record of a submission along any run behind it.
use cria.Prelude.{ℕ, ◌≡◌, refl, ◌∙◌, ap, some, List, ◌∷◌, Every, eq_refl}
use cria.Table.{DashMap}
use cria.Config.{Config}
use cria.Pb.{InferenceRequest}
use cria.State
use cria.State.{queued_record}
use cria.State.Lookup.{get-queued, events-insert}
use cria.State.Machine.{follow, own_operations, entry_of}
use cria.Streaming.{Mpsc}
use cria.Kafka.Messages.{Kafka, InferenceJob}
use cria.Kafka.Producer.{KafkaProducer}
use cria.Api.Begin.{Ambient, enqueuing, submit_begin}
use cria.Api.Admission.{submit_begin-IsAdmitted}
use cria.System.{System, Action, submit_starts, step, run}
use cria.System.Refines.{submit_waits-state}
use cria.System.Records.{Avoids, reported, entry-run}

module _ ⦃d : DashMap⦄ ⦃ch : Mpsc⦄ ⦃k : Kafka⦄ where
  entry-submit_starts :
      (c : Config) (p : KafkaProducer) (s : System) (request : InferenceRequest) (amb : Ambient)
      (job : InferenceJob) (receiver : ℕ)
      → (submit_begin c s.gateway request amb).1 ≡ enqueuing job receiver
      → entry_of (step c p s (submit_starts request amb)).gateway.state job.request_id ≡ record {
        shown = some (queued_record job.request_id amb.queued_at);
        cached = State.events s.gateway.state job.request_id;
      }
  unfolding step
  entry-submit_starts c p s request amb job receiver h =
      let fine = submit_begin-IsAdmitted c s.gateway request amb job receiver h in
      let id = job.request_id in
      rw (submit_waits-state, fine.after, get-queued, eq_refl, events-insert) refl

  -- A gRPC submission that is handed to the producer, and then any steps of all the tasks in any
  -- order in which no other request is submitted under its identifier: its record and its cache
  -- are what the operations that the steps report of it, in their order, make of the new queued
  -- record and of what was cached before: a failure if the producer refused it, the client's
  -- cancellations, and of each event that the router takes, its caching and its report.
  pub submit_starts-recorded :
      (c : Config) (p : KafkaProducer) (s : System) (request : InferenceRequest) (amb : Ambient)
      (job : InferenceJob) (receiver : ℕ) (actions : List Action)
      → (submit_begin c s.gateway request amb).1 ≡ enqueuing job receiver
      → Every (Avoids job.request_id) actions
      → let s' = step c p s (submit_starts request amb) in
        entry_of (run c p s (submit_starts request amb ∷ actions)).gateway.state job.request_id
        ≡ follow (own_operations job.request_id (reported c p s' actions)) (record {
          shown = some (queued_record job.request_id amb.queued_at);
          cached = State.events s.gateway.state job.request_id;
        })
  unfolding run
  submit_starts-recorded c p s request amb job receiver actions h avoids =
      let s' = step c p s (submit_starts request amb) in
      entry-run c p s' actions job.request_id avoids
      ∙ ap (follow (own_operations job.request_id (reported c p s' actions)))
          (entry-submit_starts c p s request amb job receiver h)
