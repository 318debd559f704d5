-- ===== src/Bff/Leaks.antt =====
-- What `infer` leaves behind when it fails, and what it does not check.
use cria.Prelude.{◌∙◌, ℕ, ◌+◌, String, ◌≡◌, refl, false, none, some, [], ◌∷◌, ◌++◌, arith, eq_refl}
use cria.Table.{DashMap}
use cria.Text.{trim, is_empty}
use cria.Config.{Config, request_topic_for_model}
use cria.State
use cria.State.{queued_record, RequestRecord}
use cria.State.Lookup.{get-queued}
use cria.State.Activity.{active_count-queued_new}
use cria.Streaming
use cria.Streaming.{Mpsc, sender_of}
use cria.Streaming.Wiring.{sender_of-register, register_taken, register_free}
use cria.Telemetry.{is_up, is_down, calls, calls-append, active_streams_inc}
use cria.Kafka.Messages.{Kafka, InferenceJob}
use cria.Kafka.Producer.{KafkaProducer, ProduceError, refused}
use cria.Gateway.{Gateway}
use cria.Api.Begin.{Ambient}
use cria.Api.Finish.{produce}
use cria.Bff.Infer.{
  InferRequest, rejected, enqueuing, http_refusal, http_error, conflict, service_unavailable,
  filled_or, infer_job, infer_admit, infer_begin, infer_end, infer,
}

-- The checks of `infer`: a prompt that is not blank, and a model that has a topic.
pub record IsServable (c : Config) (request : InferRequest) : Type 0 where
  pub solid : is_empty (trim request.prompt) ≡ false
  pub routed :
      (topic : String) × (request_topic_for_model c (filled_or request.model_id c.default_model_id)
        ≡ some topic)

abbrev pub infer_id : InferRequest → Ambient → String
infer_id request amb = filled_or request.request_id amb.uuid

module _ ⦃d : DashMap⦄ ⦃ch : Mpsc⦄ where
  pub infer_begin-servable :
      (c : Config) (g : Gateway) (request : InferRequest) (amb : Ambient)
      → IsServable c request
      → infer_begin c g request amb ≡ infer_admit g (infer_job c request amb) amb
  unfolding infer_begin
  infer_begin-servable c g request amb s = rw (s.solid, s.routed.1) refl

  pub infer_admit-free :
      (g : Gateway) (job : InferenceJob) (amb : Ambient)
      → sender_of g.streams job.request_id ≡ none
      → infer_admit g job amb ≡ (
        record g {
          state = State.insert g.state (queued_record job.request_id amb.queued_at);
          streams = (Streaming.register g.streams job.request_id).0;
          metrics = g.metrics ++ active_streams_inc ∷ [];
        },
        enqueuing job (ch.opened g.streams.net),
      )
  unfolding infer_admit
  infer_admit-free g job amb free =
      rw ((register_free g.streams job.request_id free).1, infer_admit) refl

  infer_admit-taken :
      (g : Gateway) (job : InferenceJob) (amb : Ambient) (c : ℕ)
      → sender_of g.streams job.request_id ≡ some c
      → infer_admit g job amb ≡ (
        record g {
          state = State.insert g.state (queued_record job.request_id amb.queued_at);
          metrics = g.metrics ++ active_streams_inc ∷ [];
        },
        rejected (http_error conflict "request_id already active"),
      )
  unfolding infer_admit
  infer_admit-taken g job amb c taken =
      rw (register_taken g.streams job.request_id taken, infer_admit) refl

  -- infer looks at no limit: a servable request whose identifier has neither stream nor record is
  -- admitted however many are active, and makes one more active.
  pub infer_begin-unlimited :
      (c : Config) (g : Gateway) (request : InferRequest) (amb : Ambient)
      → IsServable c request
      → sender_of g.streams (infer_id request amb) ≡ none
      → State.get g.state (infer_id request amb) ≡ none
      → ((infer_begin c g request amb).1
          ≡ enqueuing (infer_job c request amb) (ch.opened g.streams.net))
        × (State.active_count (infer_begin c g request amb).0.state
            ≡ State.active_count g.state + 1)
  infer_begin-unlimited c g request amb s free unknown =
      rw
        (
          infer_begin-servable c g request amb s,
          infer_admit-free g (infer_job c request amb) amb (unfold infer_job in free),
        )
        (unfold infer_job in
          (refl, active_count-queued_new g.state (infer_id request amb) amb.queued_at unknown))

  -- A servable infer under an identifier whose stream is registered is answered CONFLICT; the
  -- record is put back to queued all the same, the streams stay, and the gauge is raised and not
  -- lowered.
  pub infer_begin-conflict :
      (c : Config) (g : Gateway) (request : InferRequest) (amb : Ambient) (sender : ℕ)
      → IsServable c request
      → sender_of g.streams (infer_id request amb) ≡ some sender
      → let (g', begun) = infer_begin c g request amb in
        (begun ≡ rejected (http_error conflict "request_id already active"))
        × (State.get g'.state (infer_id request amb)
            ≡ some (queued_record (infer_id request amb) amb.queued_at))
        × (g'.streams ≡ g.streams)
        × (calls is_up g'.metrics ≡ calls is_up g.metrics + 1)
        × (calls is_down g'.metrics ≡ calls is_down g.metrics)
  infer_begin-conflict c g request amb sender s taken =
      rw
        (
          infer_begin-servable c g request amb s,
          infer_admit-taken g (infer_job c request amb) amb sender (unfold infer_job in taken),
        )
        (unfold infer_job calls in
          (
            refl,
            rw (get-queued, eq_refl) refl,
            refl,
            omega (arith, calls-append is_up g.metrics (active_streams_inc ∷ [])),
            omega (arith, calls-append is_down g.metrics (active_streams_inc ∷ [])),
          ))

module _ ⦃d : DashMap⦄ ⦃ch : Mpsc⦄ ⦃k : Kafka⦄ where
  -- The gateway that such a refusal leaves; only the producer's log is left open.
  abbrev pub kept : Gateway → InferenceJob → Ambient → Gateway
  kept g job amb = record g {
    state = State.insert g.state (queued_record job.request_id amb.queued_at);
    streams = (Streaming.register g.streams job.request_id).0;
    metrics = g.metrics ++ active_streams_inc ∷ [];
  }

  infer-refused_path :
      (c : Config) (p : KafkaProducer) (g : Gateway) (request : InferRequest) (amb : Ambient)
      (reason : ProduceError)
      → IsServable c request
      → sender_of g.streams (infer_id request amb) ≡ none
      → (produce p (infer_begin c g request amb).0 (infer_job c request amb)).1 ≡ refused reason
      → infer c p g request amb
        ≡ infer_end
            (produce p (kept g (infer_job c request amb) amb) (infer_job c request amb)).0
            (ch.opened g.streams.net)
            (refused reason)
  unfolding infer
  infer-refused_path c p g request amb reason s free no_send =
      let job = infer_job c request amb in
      let path =
        infer_begin-servable c g request amb s
        ∙ infer_admit-free g job amb (unfold infer_job in free) in
      let no_send' : (produce p (kept g job amb) job).1 ≡ refused reason = rw path at no_send in
      rw (path, no_send') refl

  -- A servable infer under a free identifier that the producer refuses is answered
  -- SERVICE_UNAVAILABLE and not undone: its record stays queued, its stream stays registered, and
  -- the gauge stays raised. A servable infer under its identifier, in the first half, is answered
  -- CONFLICT on any gateway on which that stream is still registered.
  pub infer-refused :
      (c : Config) (p : KafkaProducer) (g later : Gateway) (request again : InferRequest)
      (amb amb' : Ambient) (reason : ProduceError)
      → IsServable c request
      → sender_of g.streams (infer_id request amb) ≡ none
      → (produce p (infer_begin c g request amb).0 (infer_job c request amb)).1 ≡ refused reason
      → IsServable c again
      → infer_id again amb' ≡ infer_id request amb
      → sender_of later.streams (infer_id request amb)
        ≡ sender_of (infer c p g request amb).0.streams (infer_id request amb)
      → let (g', answer) = infer c p g request amb in
        (answer ≡ http_refusal (http_error service_unavailable "failed to enqueue request"))
        × (State.get g'.state (infer_id request amb)
            ≡ some (queued_record (infer_id request amb) amb.queued_at))
        × (sender_of g'.streams (infer_id request amb) ≡ some (ch.opened g.streams.net))
        × (calls is_up g'.metrics ≡ calls is_up g.metrics + 1)
        × (calls is_down g'.metrics ≡ calls is_down g.metrics)
        × ((infer_begin c later again amb').1
            ≡ rejected (http_error conflict "request_id already active"))
  infer-refused c p g later request again amb amb' reason s free no_send s' same still =
      let id = infer_id request amb in
      let job = infer_job c request amb in
      let g' : Gateway =
        (infer_end (produce p (kept g job amb) job).0 (ch.opened g.streams.net)
          (refused reason)).0 in
      let registered : sender_of g'.streams id ≡ some (ch.opened g.streams.net) =
        unfold infer_end produce infer_job in
        rw (sender_of-register g.streams id id free, eq_refl) refl in
      let there : sender_of later.streams (infer_id again amb') ≡ some (ch.opened g.streams.net) =
        rw same
          (still ∙ rw (infer-refused_path c p g request amb reason s free no_send) registered) in
      rw (infer-refused_path c p g request amb reason s free no_send) (
        unfold infer_end in refl,
        unfold infer_end produce infer_job in rw (get-queued, eq_refl) refl,
        registered,
        unfold infer_end produce calls in
            omega (arith, calls-append is_up g.metrics (active_streams_inc ∷ [])),
        unfold infer_end produce calls in
            omega (arith, calls-append is_down g.metrics (active_streams_inc ∷ [])),
        (infer_begin-conflict c later again amb' (ch.opened g.streams.net) s' there).0,
      )
