-- ===== src/System/Published.antt =====
-- Where the records go that a system publishes.
use cria.Prelude.{
  ℕ, String, ◌≡◌, refl, Bool, true, some, List, [], ◌∷◌, arith, Every, Every-append, Bool-cases,
  Option-cases, inl, inr,
}
use cria.Table.{DashMap, find}
use cria.Text.{trim, is_empty}
use cria.Config.{Config}
use cria.Pb.{InferenceRequest, CancelRequest, TokenEvent}
use cria.State
use cria.Streaming.{Mpsc}
use cria.Kafka.Messages.{Kafka, InferenceJob, FutureRecord, CancellationEvent}
use cria.Kafka.Producer
use cria.Kafka.Producer.{
  KafkaProducer, ProduceResult, produced, refused, produce_request, produce_cancellation,
}
use cria.Kafka.Router.{note_event, deliver_event}
use cria.Kafka.Topics.{any_is}
use cria.Gateway.{Gateway}
use cria.Api.Begin.{
  Ambient, Begun, rejected, replaying, enqueuing, replay_cached_events, admit, submit_begin,
}
use cria.Api.Finish.{produce, submit_end}
use cria.Api.Control
use cria.Bff.Infer
use cria.Bff.Infer.{
  InferRequest, InferBegun, filled_or, infer_job, infer_admit, infer_begin, infer_end,
}
use cria.Bff.Views
use cria.System.{
  Replay, System, Action, replay_goes_on, submit_goes_on, infer_goes_on, submit_waits, infer_waits,
  step, run,
}
use cria.System.Moves.{step-Moves}
use cria.System.Cases.{submit_begin-cases}

-- Every record is on one of the topics.
abbrev pub IsWithin : List String → List FutureRecord → Type 0
IsWithin topics = Every (λ r. any_is r.topic topics ≡ true)

-- The topics that the producer sends to are among these.
pub record IsFor (p : KafkaProducer) (topics : List String) : Type 0 where
  pub requests :
      (model topic : String)
      → find model p.request_topics.entries ≡ some topic
      → any_is topic topics ≡ true
  pub control : any_is p.control_topic topics ≡ true

module _ ⦃k : Kafka⦄ (topics : List String) where
  send-IsWithin :
      (sent : List FutureRecord) (r : FutureRecord)
      → any_is r.topic topics ≡ true
      → IsWithin topics sent
      → IsWithin topics (Producer.send sent r).0
  unfolding Producer.send
  send-IsWithin sent r there h = Every-append _ sent (r ∷ []) h (there, tt)

  produce_request-IsWithin :
      (p : KafkaProducer) (job : InferenceJob) (sent : List FutureRecord)
      → IsFor p topics
      → IsWithin topics sent
      → IsWithin topics (produce_request p job sent).0
  unfolding produce_request
  produce_request-IsWithin p job sent f h =
      elim (Option-cases (find job.model_id p.request_topics.entries)) [
        | inl unknown ↦ rw (unknown, produce_request) h
        | inr (topic, known) ↦ elim (Option-cases (k.encode_job job)) [
          | inl bad ↦ rw (known, bad, produce_request) h
          | inr (payload, good) ↦
              rw (known, good, produce_request)
                (send-IsWithin sent _ (f.requests job.model_id topic known) h)
        ]
      ]

  produce_cancellation-IsWithin :
      (p : KafkaProducer) (event : CancellationEvent) (sent : List FutureRecord)
      → IsFor p topics
      → IsWithin topics sent
      → IsWithin topics (produce_cancellation p event sent).0
  unfolding produce_cancellation
  produce_cancellation-IsWithin p event sent f h =
      elim (Option-cases (k.encode_cancellation event)) [
        | inl bad ↦ rw (bad, produce_cancellation) h
        | inr (payload, good) ↦ rw (good, produce_cancellation) (send-IsWithin sent _ f.control h)
      ]

module _ ⦃d : DashMap⦄ ⦃ch : Mpsc⦄ where
  sent-replay_cached_events :
      (g : Gateway) (id : String) → (replay_cached_events g id).0.sent ≡ g.sent
  unfolding replay_cached_events
  sent-replay_cached_events g id = ground arith

  sent-admit :
      (g : Gateway) (job : InferenceJob) (amb : Ambient) → (admit g job amb).0.sent ≡ g.sent
  unfolding admit
  sent-admit g job amb = ground arith

  sent-submit_begin :
      (c : Config) (g : Gateway) (request : InferenceRequest) (amb : Ambient)
      → (submit_begin c g request amb).0.sent ≡ g.sent
  sent-submit_begin c g request amb =
      submit_begin-cases (λ r. r.0.sent ≡ g.sent) c g request amb (λ status. refl) (λ status. refl)
        (λ id. sent-replay_cached_events g id) (λ job its. sent-admit g job amb)

  sent-submit_end :
      (g : Gateway) (job : InferenceJob) (receiver : ℕ) (amb : Ambient) (result : ProduceResult)
      → (submit_end g job receiver amb result).0.sent ≡ g.sent
  unfolding submit_end
  sent-submit_end g job receiver amb produced = refl
  sent-submit_end g job receiver amb (refused reason) = refl

  sent-infer_begin :
      (c : Config) (g : Gateway) (request : InferRequest) (amb : Ambient)
      → (infer_begin c g request amb).0.sent ≡ g.sent
  unfolding infer_begin infer_admit
  sent-infer_begin c g request amb = ground arith

  sent-infer_end :
      (g : Gateway) (receiver : ℕ) (result : ProduceResult)
      → (infer_end g receiver result).0.sent ≡ g.sent
  unfolding infer_end
  sent-infer_end g receiver produced = refl
  sent-infer_end g receiver (refused reason) = refl

  sent-replay_goes_on :
      (s : System) (id : String) (es : List TokenEvent) (terminal : Bool) (rest : List Replay)
      → (replay_goes_on s id es terminal rest).gateway.sent ≡ s.gateway.sent
  unfolding replay_goes_on
  sent-replay_goes_on s id [] terminal rest = refl
  sent-replay_goes_on s id (e ∷ es) terminal rest = refl

module _ ⦃d : DashMap⦄ ⦃ch : Mpsc⦄ ⦃k : Kafka⦄ (topics : List String) (p : KafkaProducer)
    (f : IsFor p topics) where
  cancel-IsWithin :
      (g : Gateway) (request : CancelRequest) (amb : Ambient)
      → IsWithin topics g.sent
      → IsWithin topics (Control.cancel p g request amb).0.sent
  unfolding Control.cancel Control.announce
  cancel-IsWithin g request amb h =
      let id = trim request.request_id in
      elim (Bool-cases (is_empty id)) [
        | inl blank ↦ rw blank h
        | inr solid ↦ elim (Bool-cases (State.cancel g.state id request.reason amb.queued_at).1) [
          | inl accepted ↦
              rw (solid, accepted) (produce_cancellation-IsWithin topics p _ g.sent f h)
          | inr refused_it ↦ rw (solid, refused_it) h
        ]
      ]

  click-IsWithin :
      (g : Gateway) (id : String) (amb : Ambient)
      → IsWithin topics g.sent
      → IsWithin topics (Views.cancel p g id amb).0.sent
  unfolding Views.cancel Control.announce
  click-IsWithin g id amb h =
      elim (Bool-cases (State.cancel g.state id "cancelled from web UI" amb.queued_at).1) [
        | inl accepted ↦ rw accepted (produce_cancellation-IsWithin topics p _ g.sent f h)
        | inr refused_it ↦ rw refused_it h
      ]

  submit_waits-IsWithin :
      (amb : Ambient) (s : System) (g : Gateway) (begun : Begun)
      → IsWithin topics g.sent
      → IsWithin topics (submit_waits p amb s g begun).gateway.sent
  unfolding submit_waits produce
  submit_waits-IsWithin amb s g (rejected status) h = h
  submit_waits-IsWithin amb s g (replaying receiver id es) h = h
  submit_waits-IsWithin amb s g (enqueuing job receiver) h =
      produce_request-IsWithin topics p job g.sent f h

  infer_waits-IsWithin :
      (s : System) (g : Gateway) (begun : InferBegun)
      → IsWithin topics g.sent
      → IsWithin topics (infer_waits p s g begun).gateway.sent
  unfolding infer_waits produce
  infer_waits-IsWithin s g (Infer.rejected e) h = h
  infer_waits-IsWithin s g (Infer.enqueuing job receiver) h =
      produce_request-IsWithin topics p job g.sent f h

  step-IsWithin :
      (c : Config) (s : System) (a : Action)
      → IsWithin topics s.gateway.sent
      → IsWithin topics (step c p s a).gateway.sent
  unfolding submit_goes_on infer_goes_on note_event deliver_event
  step-IsWithin c s a h =
      step-Moves c p s (λ b s'. IsWithin topics s'.gateway.sent)
        (record {
          stays = λ b stuck. h;
          submits = λ request amb.
              let (g, begun) = submit_begin c s.gateway request amb in
              submit_waits-IsWithin amb s g begun (rw sent-submit_begin h);
          is_answered = λ i w rest found. rw sent-submit_end h;
          infers = λ request amb.
              let (g, begun) = infer_begin c s.gateway request amb in
              infer_waits-IsWithin s g begun (rw sent-infer_begin h);
          infer_is_answered = λ i receiver result rest found. rw sent-infer_end h;
          cancels = λ request amb. cancel-IsWithin s.gateway request amb h;
          clicks = λ id amb. click-IsWithin s.gateway id amb h;
          notes = λ e now ready. h;
          hands = λ e waiting. h;
          replays = λ i r rest found. rw sent-replay_goes_on h;
        })
        a

  pub run-IsWithin :
      (c : Config) (s : System) (actions : List Action)
      → IsWithin topics s.gateway.sent
      → IsWithin topics (run c p s actions).gateway.sent
  unfolding run
  run-IsWithin c s [] h = h
  run-IsWithin c s (a ∷ actions) h = run-IsWithin c (step c p s a) actions (step-IsWithin c s a h)
