-- ===== src/System/Table.antt =====
-- The tasks change the table of records through its operations alone.
use cria.Prelude.{
  ℕ, String, ◌≡◌, refl, sym, ◌∙◌, ap, List, [], ◌∷◌, ◌++◌, Bool-cases, Option-cases, inl, inr,
}
use cria.Table.{DashMap}
use cria.Text.{trim, is_empty}
use cria.Config.{Config, request_topic_for_model}
use cria.Pb.{InferenceRequest, TokenEvent, TokenEventType, event_type_of}
use cria.State
use cria.State.{
  RequestState, queued_record, finish_failed, finish_completed, finish_cancelled, mark_running,
  note_token,
}
use cria.State.Operations.{
  Operation, submitted, marked_running, noted_token, cancelled_by_client, completed_by_worker,
  failed_with, cancelled_by_worker, recorded, perform, perform_all,
}
use cria.Streaming
use cria.Streaming.{Mpsc}
use cria.Kafka.Messages.{InferenceJob}
use cria.Kafka.Producer.{ProduceResult, produced, refused}
use cria.Kafka.Router.{apply_event, note_event}
use cria.Gateway.{Gateway}
use cria.Api.Begin.{Ambient, admit, submit_begin}
use cria.Api.Finish.{submit_end}
use cria.Api.Capacity.{state-replay}
use cria.Bff.Infer.{InferRequest, filled_or, infer_job, infer_admit, infer_begin, infer_end}
use cria.System.Cases.{submit_begin-cases}

module _ ⦃d : DashMap⦄ where
  -- Some operations lead from one table to the other.
  abbrev pub IsReached : RequestState → RequestState → Type 0
  IsReached s s' = (os : List (Operation × ℕ)) × (s' ≡ perform_all s os)

  pub IsReached-refl : (s : RequestState) → IsReached s s
  unfolding perform_all
  IsReached-refl s = ([], refl)

  perform_all-append :
      (s : RequestState) (os ps : List (Operation × ℕ))
      → perform_all s (os ++ ps) ≡ perform_all (perform_all s os) ps
  unfolding perform_all
  perform_all-append s [] ps = refl
  perform_all-append s ((o, now) ∷ os) ps = perform_all-append (perform s o now) os ps

  pub IsReached-trans :
      (s s' s'' : RequestState) → IsReached s s' → IsReached s' s'' → IsReached s s''
  IsReached-trans s s' s'' (os, h) (ps, g) =
      (os ++ ps, g ∙ ap (λ t. perform_all t ps) h ∙ sym (perform_all-append s os ps))

  pub one_operation : (s : RequestState) (o : Operation) (now : ℕ) → IsReached s (perform s o now)
  unfolding perform_all
  one_operation s o now = ((o, now) ∷ [], refl)

  failed-IsReached :
      (s : RequestState) (id text : String) (now : ℕ) → IsReached s (finish_failed s id text now)
  unfolding perform
  failed-IsReached s id text now = one_operation s (failed_with id text) now

  queued-IsReached :
      (s : RequestState) (id : String) (now : ℕ)
      → IsReached s (State.insert s (queued_record id now))
  unfolding perform
  queued-IsReached s id now = one_operation s (submitted id) now

  pub cancelled-IsReached :
      (s : RequestState) (id reason : String) (now : ℕ)
      → IsReached s (State.cancel s id reason now).0
  unfolding perform
  cancelled-IsReached s id reason now = one_operation s (cancelled_by_client id reason) now

  event-IsReached :
      (t : TokenEventType) (p : TokenEvent) (now : ℕ) (s : RequestState)
      → IsReached s (apply_event t p now s)
  unfolding apply_event perform
  event-IsReached TokenEventType.unspecified p now s = IsReached-refl s
  event-IsReached TokenEventType.started p now s =
      one_operation s (marked_running p.request_id p.worker_id) now
  event-IsReached TokenEventType.token p now s =
      one_operation s (noted_token p.request_id p.sequence_number p.worker_id) now
  event-IsReached TokenEventType.completed p now s =
      one_operation s (completed_by_worker p.request_id p.sequence_number p.worker_id) now
  event-IsReached TokenEventType.failed p now s =
      one_operation s (failed_with p.request_id p.error_message) now
  event-IsReached TokenEventType.cancelled p now s =
      one_operation s (cancelled_by_worker p.request_id p.error_message) now

  recorded-IsReached :
      (s : RequestState) (e : TokenEvent) (now : ℕ) → IsReached s (State.record_event s e)
  unfolding perform
  recorded-IsReached s e now = one_operation s (recorded e) now

module _ ⦃d : DashMap⦄ ⦃ch : Mpsc⦄ where
  pub admit-IsReached :
      (g : Gateway) (job : InferenceJob) (amb : Ambient)
      → IsReached g.state (admit g job amb).0.state
  unfolding admit
  admit-IsReached g job amb =
      let queued = State.insert g.state (queued_record job.request_id amb.queued_at) in
      let first = queued-IsReached g.state job.request_id amb.queued_at in
      elim (Option-cases (Streaming.register g.streams job.request_id).1) [
        | inl taken ↦
            rw (taken, admit)
              (IsReached-trans g.state queued _ first
                (failed-IsReached queued job.request_id _ amb.failed_at))
        | inr (c, free) ↦ rw (free, admit) first
      ]

  pub submit_begin-IsReached :
      (c : Config) (g : Gateway) (request : InferenceRequest) (amb : Ambient)
      → IsReached g.state (submit_begin c g request amb).0.state
  submit_begin-IsReached c g request amb =
      submit_begin-cases (λ r. IsReached g.state r.0.state) c g request amb
        (λ status. IsReached-refl g.state) (λ status. IsReached-refl g.state)
        (λ id. rw state-replay (IsReached-refl g.state)) (λ job its. admit-IsReached g job amb)

  pub submit_end-IsReached :
      (g : Gateway) (job : InferenceJob) (receiver : ℕ) (amb : Ambient) (result : ProduceResult)
      → IsReached g.state (submit_end g job receiver amb result).0.state
  unfolding submit_end
  submit_end-IsReached g job receiver amb produced = IsReached-refl g.state
  submit_end-IsReached g job receiver amb (refused reason) =
      failed-IsReached g.state job.request_id _ amb.failed_at

  pub infer_admit-IsReached :
      (g : Gateway) (job : InferenceJob) (amb : Ambient)
      → IsReached g.state (infer_admit g job amb).0.state
  unfolding infer_admit
  infer_admit-IsReached g job amb =
      let first = queued-IsReached g.state job.request_id amb.queued_at in
      elim (Option-cases (Streaming.register g.streams job.request_id).1) [
        | inl taken ↦ rw (taken, infer_admit) first
        | inr (c, free) ↦ rw (free, infer_admit) first
      ]

  pub infer_begin-IsReached :
      (c : Config) (g : Gateway) (request : InferRequest) (amb : Ambient)
      → IsReached g.state (infer_begin c g request amb).0.state
  unfolding infer_begin
  infer_begin-IsReached c g request amb = elim (Bool-cases (is_empty (trim request.prompt))) [
    | inl blank ↦ rw blank (IsReached-refl g.state)
    | inr solid ↦
        elim (Option-cases
          (request_topic_for_model c (filled_or request.model_id c.default_model_id))) [
            | inl unknown ↦ rw (solid, unknown) (IsReached-refl g.state)
            | inr (topic, known) ↦
                rw (solid, known) (infer_admit-IsReached g (infer_job c request amb) amb)
          ]
  ]

  pub infer_end-IsReached :
      (g : Gateway) (receiver : ℕ) (result : ProduceResult)
      → IsReached g.state (infer_end g receiver result).0.state
  unfolding infer_end
  infer_end-IsReached g receiver produced = IsReached-refl g.state
  infer_end-IsReached g receiver (refused reason) = IsReached-refl g.state

  pub note_event-IsReached :
      (p : TokenEvent) (now : ℕ) (g : Gateway) → IsReached g.state (note_event p now g).state
  unfolding note_event
  note_event-IsReached p now g =
      IsReached-trans g.state (State.record_event g.state p) _ (recorded-IsReached g.state p now)
        (event-IsReached (event_type_of p.event_type) p now (State.record_event g.state p))
