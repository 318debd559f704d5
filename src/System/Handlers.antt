-- ===== src/System/Handlers.antt =====
-- Each handler's steps keep the gateway safe.
use cria.Prelude.{ℕ, String, refl, eq_refl, Bool-cases, Option-cases, inl, inr}
use cria.Table.{DashMap}
use cria.Text.{trim, is_empty}
use cria.Config.{Config, request_topic_for_model}
use cria.Pb.{InferenceRequest, CancelRequest, TokenEvent, TokenEventType, event_type_of}
use cria.State
use cria.State.{
  RequestState, queued_record, finish_failed, finish_completed, finish_cancelled, mark_running,
  note_token,
}
use cria.State.Lookup.{get-queued}
use cria.Streaming
use cria.Streaming.{Mpsc, sender_of}
use cria.Kafka.Messages.{Kafka, InferenceJob}
use cria.Kafka.Producer.{KafkaProducer, ProduceResult, produced, refused}
use cria.Kafka.Router.{is_terminal_event, apply_event, note_event, deliver_event}
use cria.Gateway.{Gateway}
use cria.Api.Begin.{Ambient, Begun, replaying, replay_cached_events, admit, submit_begin}
use cria.Api.Finish.{submit_end, produce}
use cria.Api.Control
use cria.Bff.Infer.{InferRequest, filled_or, infer_job, infer_admit, infer_begin, infer_end}
use cria.Bff.Views
use cria.System.Cases.{submit_begin-cases}
use cria.System.Keeping.{
  AllFor, IsKnown, IsKept, IsKept-refl, IsKept-trans, insert-IsKept, update-IsKept, cancel-IsKept,
  IsSafe, kept-IsSafe, registered-IsSafe, sent-IsSafe, unregistered-IsSafe, recorded-IsSafe,
}

-- What a replay's task is given to send is all of its own request.
abbrev pub IsOwnReplay : Begun → Type 0
IsOwnReplay (replaying receiver id es) = AllFor id es
IsOwnReplay _ = Unit

module _ ⦃d : DashMap⦄ where
  failed-IsKept :
      (s : RequestState) (id text : String) (now : ℕ) → IsKept s (finish_failed s id text now)
  unfolding finish_failed
  failed-IsKept s id text now = update-IsKept s id _ now

  queued-IsKnown :
      (s : RequestState) (id : String) (now : ℕ)
      → IsKnown (State.insert s (queued_record id now)) id
  queued-IsKnown s id now = (queued_record id now, rw (get-queued, eq_refl) refl)

  apply_event-IsKept :
      (t : TokenEventType) (p : TokenEvent) (now : ℕ) (s : RequestState)
      → IsKept s (apply_event t p now s)
  unfolding apply_event mark_running note_token finish_completed finish_failed finish_cancelled
  apply_event-IsKept TokenEventType.unspecified p now s = IsKept-refl s
  apply_event-IsKept TokenEventType.started p now s = update-IsKept s p.request_id _ now
  apply_event-IsKept TokenEventType.token p now s = update-IsKept s p.request_id _ now
  apply_event-IsKept TokenEventType.completed p now s = update-IsKept s p.request_id _ now
  apply_event-IsKept TokenEventType.failed p now s = update-IsKept s p.request_id _ now
  apply_event-IsKept TokenEventType.cancelled p now s = update-IsKept s p.request_id _ now

module _ ⦃d : DashMap⦄ ⦃ch : Mpsc⦄ where
  replay-IsSafe :
      (g : Gateway) (id : String)
      → IsSafe g
      → IsSafe (replay_cached_events g id).0 × IsOwnReplay (replay_cached_events g id).1
  unfolding replay_cached_events
  replay-IsSafe g id h = elim (Bool-cases (is_empty (trim id))) [
    | inl blank ↦ rw blank (h, tt)
    | inr solid ↦ elim (Option-cases (State.get g.state id)) [
      | inl unknown ↦ rw (solid, unknown) (h, tt)
      | inr (r, known) ↦ elim (Option-cases (Streaming.register g.streams id).1) [
        | inl taken ↦ rw (solid, known, taken) (h, tt)
        | inr (c, free) ↦
            rw (solid, known, free)
              (
                registered-IsSafe g (record g { streams = (Streaming.register g.streams id).0 }) id
                    refl (IsKept-refl g.state) (r, known) h,
                h.cached id,
              )
      ]
    ]
  ]

  admit-IsSafe :
      (g : Gateway) (job : InferenceJob) (amb : Ambient)
      → IsSafe g
      → IsSafe (admit g job amb).0 × IsOwnReplay (admit g job amb).1
  unfolding admit queued_record
  admit-IsSafe g job amb h =
      let queued = State.insert g.state (queued_record job.request_id amb.queued_at) in
      let kept = insert-IsKept g.state (queued_record job.request_id amb.queued_at) in
      elim (Option-cases (Streaming.register g.streams job.request_id).1) [
        | inl taken ↦
            rw (taken, admit)
              (
                kept-IsSafe g _ refl
                    (IsKept-trans g.state queued _ kept
                      (failed-IsKept queued job.request_id _ amb.failed_at))
                    h,
                tt,
              )
        | inr (c, free) ↦
            rw (free, admit)
              (
                registered-IsSafe g _ job.request_id refl kept
                    (queued-IsKnown g.state job.request_id amb.queued_at) h,
                tt,
              )
      ]

  pub submit_begin-IsSafe :
      (c : Config) (g : Gateway) (request : InferenceRequest) (amb : Ambient)
      → IsSafe g
      → IsSafe (submit_begin c g request amb).0 × IsOwnReplay (submit_begin c g request amb).1
  submit_begin-IsSafe c g request amb h =
      submit_begin-cases (λ r. IsSafe r.0 × IsOwnReplay r.1) c g request amb (λ status. (h, tt))
        (λ status. (kept-IsSafe g _ refl (IsKept-refl g.state) h, tt)) (λ id. replay-IsSafe g id h)
        (λ job its. admit-IsSafe g job amb h)

  pub submit_end-IsSafe :
      (g : Gateway) (job : InferenceJob) (receiver : ℕ) (amb : Ambient) (result : ProduceResult)
      → IsSafe g
      → IsSafe (submit_end g job receiver amb result).0
  unfolding submit_end
  submit_end-IsSafe g job receiver amb produced h = kept-IsSafe g _ refl (IsKept-refl g.state) h
  submit_end-IsSafe g job receiver amb (refused reason) h =
      kept-IsSafe (record g { streams = Streaming.unregister g.streams job.request_id }) _ refl
        (failed-IsKept g.state job.request_id _ amb.failed_at)
        (unregistered-IsSafe g job.request_id h)

  infer_admit-IsSafe :
      (g : Gateway) (job : InferenceJob) (amb : Ambient)
      → IsSafe g
      → IsSafe (infer_admit g job amb).0
  unfolding infer_admit
  infer_admit-IsSafe g job amb h =
      let kept = insert-IsKept g.state (queued_record job.request_id amb.queued_at) in
      elim (Option-cases (Streaming.register g.streams job.request_id).1) [
        | inl taken ↦ rw (taken, infer_admit) (kept-IsSafe g _ refl kept h)
        | inr (c, free) ↦
            rw (free, infer_admit)
              (registered-IsSafe g _ job.request_id refl kept
                (queued-IsKnown g.state job.request_id amb.queued_at) h)
      ]

  pub infer_begin-IsSafe :
      (c : Config) (g : Gateway) (request : InferRequest) (amb : Ambient)
      → IsSafe g
      → IsSafe (infer_begin c g request amb).0
  unfolding infer_begin
  infer_begin-IsSafe c g request amb h = elim (Bool-cases (is_empty (trim request.prompt))) [
    | inl blank ↦ rw blank h
    | inr solid ↦
        elim (Option-cases
          (request_topic_for_model c (filled_or request.model_id c.default_model_id))) [
            | inl unknown ↦ rw (solid, unknown) h
            | inr (topic, known) ↦
                rw (solid, known) (infer_admit-IsSafe g (infer_job c request amb) amb h)
          ]
  ]

  pub infer_end-IsSafe :
      (g : Gateway) (receiver : ℕ) (result : ProduceResult)
      → IsSafe g
      → IsSafe (infer_end g receiver result).0
  unfolding infer_end
  infer_end-IsSafe g receiver produced h = kept-IsSafe g _ refl (IsKept-refl g.state) h
  infer_end-IsSafe g receiver (refused reason) h = h

  pub note_event-IsSafe :
      (p : TokenEvent) (now : ℕ) (g : Gateway) → IsSafe g → IsSafe (note_event p now g)
  unfolding note_event
  note_event-IsSafe p now g h =
      kept-IsSafe (record g { state = State.record_event g.state p }) _ refl
        (apply_event-IsKept (event_type_of p.event_type) p now (State.record_event g.state p))
        (recorded-IsSafe g p h)

  pub deliver_event-IsSafe : (p : TokenEvent) (g : Gateway) → IsSafe g → IsSafe (deliver_event p g)
  unfolding deliver_event
  deliver_event-IsSafe p g h =
      let sent = sent-IsSafe g p p.request_id refl h in
      elim (Bool-cases (is_terminal_event (event_type_of p.event_type))) [
        | inl last ↦ rw last (unregistered-IsSafe _ p.request_id sent)
        | inr more ↦ rw more sent
      ]

module _ ⦃d : DashMap⦄ ⦃ch : Mpsc⦄ ⦃k : Kafka⦄ where
  pub produce-IsSafe :
      (p : KafkaProducer) (g : Gateway) (job : InferenceJob) → IsSafe g → IsSafe (produce p g job).0
  unfolding produce
  produce-IsSafe p g job h = kept-IsSafe g _ refl (IsKept-refl g.state) h

  pub cancel-IsSafe :
      (p : KafkaProducer) (g : Gateway) (request : CancelRequest) (amb : Ambient)
      → IsSafe g
      → IsSafe (Control.cancel p g request amb).0
  unfolding Control.cancel Control.announce
  cancel-IsSafe p g request amb h =
      let id = trim request.request_id in
      let kept = cancel-IsKept g.state id request.reason amb.queued_at in
      elim (Bool-cases (is_empty id)) [
        | inl blank ↦ rw blank h
        | inr solid ↦ elim (Bool-cases (State.cancel g.state id request.reason amb.queued_at).1) [
          | inl accepted ↦ rw (solid, accepted) (kept-IsSafe g _ refl kept h)
          | inr refused_it ↦ rw (solid, refused_it) (kept-IsSafe g _ refl kept h)
        ]
      ]

  pub click-IsSafe :
      (p : KafkaProducer) (g : Gateway) (id : String) (amb : Ambient)
      → IsSafe g
      → IsSafe (Views.cancel p g id amb).0
  unfolding Views.cancel Control.announce
  click-IsSafe p g id amb h =
      let kept = cancel-IsKept g.state id "cancelled from web UI" amb.queued_at in
      elim (Bool-cases (State.cancel g.state id "cancelled from web UI" amb.queued_at).1) [
        | inl accepted ↦ rw accepted (kept-IsSafe g _ refl kept h)
        | inr refused_it ↦ rw refused_it (kept-IsSafe g _ refl kept h)
      ]
