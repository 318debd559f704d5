-- ===== src/System/Reports.antt =====
-- What a step does to the requests' records and caches, as operations of the table.
use cria.Prelude.{
  ℕ, String, ◌≡◌, refl, none, some, List, [], ◌∷◌, if◌then◌else◌, Bool-cases, inl, inr,
}
use cria.Table.{DashMap}
use cria.Text.{trim, is_empty}
use cria.Pb.{CancelRequest, TokenEvent, TokenEventType, event_type_of}
use cria.State
use cria.State.{RequestState, queued_record}
use cria.State.Operations.{
  Operation, marked_running, noted_token, cancelled_by_client, completed_by_worker, failed_with,
  cancelled_by_worker, recorded, perform, perform_all,
}
use cria.Streaming.{Mpsc}
use cria.Kafka.Messages.{Kafka, InferenceJob, into_proto}
use cria.Kafka.Producer.{KafkaProducer, ProduceResult, produced, refused}
use cria.Kafka.Router.{apply_event, note_event}
use cria.Gateway.{Gateway}
use cria.Api.Begin.{Ambient}
use cria.Api.Finish.{submit_end}
use cria.Api.Control
use cria.Bff.Infer.{infer_end}
use cria.Bff.Views
use cria.System.{System, Action, submit_ends, cancel_called, cancel_clicked, event_comes, take_at}
use cria.System.Moves.{IsStuck, no_submission, no_inference, no_replay, still_held, nothing_held}

-- What an event of a worker does to its request, beside being cached.
abbrev pub report : TokenEventType → TokenEvent → ℕ → List (Operation × ℕ)
report TokenEventType.started p now = (marked_running p.request_id p.worker_id, now) ∷ []
report TokenEventType.token p now =
    (noted_token p.request_id p.sequence_number p.worker_id, now) ∷ []
report TokenEventType.completed p now =
    (completed_by_worker p.request_id p.sequence_number p.worker_id, now) ∷ []
report TokenEventType.failed p now = (failed_with p.request_id p.error_message, now) ∷ []
report TokenEventType.cancelled p now = (cancelled_by_worker p.request_id p.error_message, now) ∷ []
report TokenEventType.unspecified p now = []

abbrev pub noted : TokenEvent → ℕ → List (Operation × ℕ)
noted p now = (recorded p, now) ∷ report (event_type_of p.event_type) p now

-- What the producer's answer does.
abbrev pub answered : ProduceResult → String → ℕ → List (Operation × ℕ)
answered produced id now = []
answered (refused reason) id now = (failed_with id "failed to enqueue inference request", now) ∷ []

module _ ⦃d : DashMap⦄ ⦃ch : Mpsc⦄ where
  -- What a step does to requests, submissions apart.
  unfoldable pub reported_by : System → Action → List (Operation × ℕ)
  reported_by s (submit_ends i) = elim (take_at i s.submissions) [
    | none ↦ []
    | some (w, rest) ↦ answered w.result w.job.request_id w.ambient.failed_at
  ]
  reported_by s (cancel_called request amb) =
      if is_empty (trim request.request_id)
      then []
      else (cancelled_by_client (trim request.request_id) request.reason, amb.queued_at) ∷ []
  reported_by s (cancel_clicked id amb) =
      (cancelled_by_client id "cancelled from web UI", amb.queued_at) ∷ []
  reported_by s (event_comes e now) = elim s.delivering [
    | none ↦ noted (into_proto e) now
    | some p ↦ []
  ]
  reported_by s a = []

  apply_event-report :
      (t : TokenEventType) (p : TokenEvent) (now : ℕ) (s : RequestState)
      → apply_event t p now s ≡ perform_all s (report t p now)
  unfolding apply_event perform_all perform
  apply_event-report TokenEventType.unspecified p now s = refl
  apply_event-report TokenEventType.started p now s = refl
  apply_event-report TokenEventType.token p now s = refl
  apply_event-report TokenEventType.completed p now s = refl
  apply_event-report TokenEventType.failed p now s = refl
  apply_event-report TokenEventType.cancelled p now s = refl

  pub state-note_event :
      (p : TokenEvent) (now : ℕ) (g : Gateway)
      → (note_event p now g).state ≡ perform_all g.state (noted p now)
  unfolding note_event perform_all perform
  state-note_event p now g =
      apply_event-report (event_type_of p.event_type) p now (State.record_event g.state p)

  pub state-submit_end :
      (g : Gateway) (job : InferenceJob) (receiver : ℕ) (amb : Ambient) (result : ProduceResult)
      → (submit_end g job receiver amb result).0.state
        ≡ perform_all g.state (answered result job.request_id amb.failed_at)
  unfolding submit_end perform_all perform
  state-submit_end g job receiver amb produced = refl
  state-submit_end g job receiver amb (refused reason) = refl

  pub state-infer_end :
      (g : Gateway) (receiver : ℕ) (result : ProduceResult)
      → (infer_end g receiver result).0.state ≡ g.state
  unfolding infer_end
  state-infer_end g receiver produced = refl
  state-infer_end g receiver (refused reason) = refl

module _ ⦃d : DashMap⦄ ⦃ch : Mpsc⦄ ⦃k : Kafka⦄ where
  pub state-cancel :
      (p : KafkaProducer) (s : System) (request : CancelRequest) (amb : Ambient)
      → (Control.cancel p s.gateway request amb).0.state
        ≡ perform_all s.gateway.state (reported_by s (cancel_called request amb))
  unfolding Control.cancel Control.announce reported_by perform_all perform
  state-cancel p s request amb =
      let id = trim request.request_id in
      elim (Bool-cases (is_empty id)) [
        | inl blank ↦ rw blank refl
        | inr solid ↦
            elim (Bool-cases (State.cancel s.gateway.state id request.reason amb.queued_at).1) [
              | inl accepted ↦ rw (solid, accepted) refl
              | inr refused_it ↦ rw (solid, refused_it) refl
            ]
      ]

  pub state-click :
      (p : KafkaProducer) (s : System) (id : String) (amb : Ambient)
      → (Views.cancel p s.gateway id amb).0.state
        ≡ perform_all s.gateway.state (reported_by s (cancel_clicked id amb))
  unfolding Views.cancel Control.announce reported_by perform_all perform
  state-click p s id amb =
      elim (Bool-cases (State.cancel s.gateway.state id "cancelled from web UI" amb.queued_at).1) [
        | inl accepted ↦ rw accepted refl
        | inr refused_it ↦ rw refused_it refl
      ]

module _ ⦃d : DashMap⦄ ⦃ch : Mpsc⦄ where
  -- A step that finds nothing waiting does nothing.
  pub reported_by-IsStuck : (s : System) (a : Action) → IsStuck s a → reported_by s a ≡ []
  unfolding reported_by
  reported_by-IsStuck s a (no_submission i missing) = rw (missing, reported_by) refl
  reported_by-IsStuck s a (no_inference i missing) = refl
  reported_by-IsStuck s a (no_replay i missing) = refl
  reported_by-IsStuck s a (still_held e now p waiting) = rw (waiting, reported_by) refl
  reported_by-IsStuck s a (nothing_held ready) = refl
