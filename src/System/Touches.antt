-- ===== src/System/Touches.antt =====
-- The calls of the registry that a step of a task makes.
use cria.Prelude.{ℕ, String, Bool-cases, Option-cases, inl, inr}
use cria.Table.{DashMap}
use cria.Text.{trim, is_empty}
use cria.Config.{Config, request_topic_for_model}
use cria.Pb.{InferenceRequest, TokenEvent, event_type_of}
use cria.State
use cria.Streaming
use cria.Streaming.{Mpsc, event}
use cria.Streaming.Runs.{registering, sending, unregistering}
use cria.Streaming.Touch.{IsMade, IsMade-refl, IsMade-call, IsMade-trans}
use cria.Kafka.Messages.{InferenceJob}
use cria.Kafka.Producer.{ProduceResult, produced, refused}
use cria.Kafka.Router.{is_terminal_event, deliver_event}
use cria.Gateway.{Gateway}
use cria.Api.Begin.{Ambient, replay_cached_events, admit, submit_begin}
use cria.Api.Finish.{submit_end}
use cria.Bff.Infer.{InferRequest, filled_or, infer_job, infer_admit, infer_begin, infer_end}
use cria.System.Pending.{TouchesAfter}
use cria.System.Cases.{submit_begin-cases}

module _ ⦃d : DashMap⦄ ⦃ch : Mpsc⦄ where
  module _ (M : String → Type 0) where
    replay_cached_events-IsMade :
        (g : Gateway) (id : String) → IsMade M g.streams (replay_cached_events g id).0.streams
    unfolding replay_cached_events
    replay_cached_events-IsMade g id = elim (Bool-cases (is_empty (trim id))) [
      | inl blank ↦ rw blank (IsMade-refl M g.streams)
      | inr solid ↦ elim (Option-cases (State.get g.state id)) [
        | inl unknown ↦ rw (solid, unknown) (IsMade-refl M g.streams)
        | inr (r, known) ↦ elim (Option-cases (Streaming.register g.streams id).1) [
          | inl taken ↦ rw (solid, known, taken) (IsMade-refl M g.streams)
          | inr (c, free) ↦ rw (solid, known, free) (IsMade-call M g.streams (registering id) tt)
        ]
      ]
    ]

    admit-IsMade :
        (g : Gateway) (job : InferenceJob) (amb : Ambient)
        → IsMade M g.streams (admit g job amb).0.streams
    unfolding admit
    admit-IsMade g job amb = elim (Option-cases (Streaming.register g.streams job.request_id).1) [
      | inl taken ↦ rw (taken, admit) (IsMade-refl M g.streams)
      | inr (c, free) ↦ rw (free, admit) (IsMade-call M g.streams (registering job.request_id) tt)
    ]

    pub submit_begin-IsMade :
        (c : Config) (g : Gateway) (request : InferenceRequest) (amb : Ambient)
        → IsMade M g.streams (submit_begin c g request amb).0.streams
    submit_begin-IsMade c g request amb =
        submit_begin-cases (λ r. IsMade M g.streams r.0.streams) c g request amb
          (λ status. IsMade-refl M g.streams) (λ status. IsMade-refl M g.streams)
          (λ id. replay_cached_events-IsMade g id) (λ job its. admit-IsMade g job amb)

    pub submit_end-IsMade :
        (g : Gateway) (job : InferenceJob) (receiver : ℕ) (amb : Ambient) (result : ProduceResult)
        → TouchesAfter M result job.request_id
        → IsMade M g.streams (submit_end g job receiver amb result).0.streams
    unfolding submit_end
    submit_end-IsMade g job receiver amb produced h = IsMade-refl M g.streams
    submit_end-IsMade g job receiver amb (refused reason) h =
        IsMade-call M g.streams (unregistering job.request_id) h

    infer_admit-IsMade :
        (g : Gateway) (job : InferenceJob) (amb : Ambient)
        → IsMade M g.streams (infer_admit g job amb).0.streams
    unfolding infer_admit
    infer_admit-IsMade g job amb =
        elim (Option-cases (Streaming.register g.streams job.request_id).1) [
          | inl taken ↦ rw (taken, infer_admit) (IsMade-refl M g.streams)
          | inr (c, free) ↦
              rw (free, infer_admit) (IsMade-call M g.streams (registering job.request_id) tt)
        ]

    pub infer_begin-IsMade :
        (c : Config) (g : Gateway) (request : InferRequest) (amb : Ambient)
        → IsMade M g.streams (infer_begin c g request amb).0.streams
    unfolding infer_begin
    infer_begin-IsMade c g request amb = elim (Bool-cases (is_empty (trim request.prompt))) [
      | inl blank ↦ rw blank (IsMade-refl M g.streams)
      | inr solid ↦
          elim (Option-cases
            (request_topic_for_model c (filled_or request.model_id c.default_model_id))) [
              | inl unknown ↦ rw (solid, unknown) (IsMade-refl M g.streams)
              | inr (topic, known) ↦
                  rw (solid, known) (infer_admit-IsMade g (infer_job c request amb) amb)
            ]
    ]

    pub infer_end-IsMade :
        (g : Gateway) (receiver : ℕ) (result : ProduceResult)
        → IsMade M g.streams (infer_end g receiver result).0.streams
    unfolding infer_end
    infer_end-IsMade g receiver produced = IsMade-refl M g.streams
    infer_end-IsMade g receiver (refused reason) = IsMade-refl M g.streams

    pub deliver_event-IsMade :
        (p : TokenEvent) (g : Gateway)
        → M p.request_id
        → IsMade M g.streams (deliver_event p g).streams
    unfolding deliver_event
    deliver_event-IsMade p g h =
        let sent = IsMade-call M g.streams (sending p.request_id (event p)) h in
        elim (Bool-cases (is_terminal_event (event_type_of p.event_type))) [
          | inl last ↦ rw last (
              IsMade-trans M g.streams _ _ sent (
                IsMade-call M (Streaming.send g.streams p.request_id (event p)).0
                  (unregistering p.request_id) h))
          | inr more ↦ rw more sent
        ]
