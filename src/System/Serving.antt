-- ===== src/System/Serving.antt =====
-- What a step does to the streams, and what it leaves waiting for a stream that is registered.
use cria.Prelude.{String, ◌≡◌, refl, Bool, List, [], ◌∷◌, Every, Bool-cases, inl, inr}
use cria.Table.{DashMap}
use cria.Text.{trim, is_empty}
use cria.Config.{Config}
use cria.Pb.{CancelRequest, TokenEvent}
use cria.State
use cria.Streaming.{Mpsc, event}
use cria.Streaming.Touch.{IsMade, IsMade-refl, IsMade-call}
use cria.Streaming.Runs.{sending, unregistering}
use cria.Kafka.Messages.{Kafka}
use cria.Kafka.Producer.{KafkaProducer}
use cria.Kafka.Router.{note_event}
use cria.Gateway.{Gateway}
use cria.Api.Begin.{Ambient, Begun, rejected, replaying, enqueuing}
use cria.Api.Finish.{produce}
use cria.Api.Control
use cria.Bff.Infer
use cria.Bff.Infer.{InferBegun}
use cria.Bff.Views
use cria.System.{
  Replay, System, Action, replay_goes_on, submit_goes_on, infer_goes_on, submit_waits, infer_waits,
  step,
}
use cria.System.Moves.{step-Moves}
use cria.System.Pending.{
  take_at-Every, SubmissionTouches, ReplayTouches, EventTouches, handed_by, MayTouch,
}
use cria.System.Touches.{
  submit_begin-IsMade, submit_end-IsMade, infer_begin-IsMade, infer_end-IsMade,
  deliver_event-IsMade,
}

module _ ⦃d : DashMap⦄ ⦃ch : Mpsc⦄ where
  replay_goes_on-IsMade :
      (M : String → Type 0) (s : System) (id : String) (es : List TokenEvent) (terminal : Bool)
      (rest : List Replay)
      → M id
      → IsMade M s.gateway.streams (replay_goes_on s id es terminal rest).gateway.streams
  unfolding replay_goes_on
  replay_goes_on-IsMade M s id [] terminal rest h = elim (Bool-cases terminal) [
    | inl ended ↦ rw ended (IsMade-call M s.gateway.streams (unregistering id) h)
    | inr going_on ↦ rw going_on (IsMade-refl M s.gateway.streams)
  ]
  replay_goes_on-IsMade M s id (e ∷ es) terminal rest h =
      IsMade-call M s.gateway.streams (sending id (event e)) h

module _ ⦃d : DashMap⦄ ⦃ch : Mpsc⦄ ⦃k : Kafka⦄ where
  cancel-streams :
      (p : KafkaProducer) (g : Gateway) (request : CancelRequest) (amb : Ambient)
      → (Control.cancel p g request amb).0.streams ≡ g.streams
  unfolding Control.cancel Control.announce
  cancel-streams p g request amb =
      let id = trim request.request_id in
      elim (Bool-cases (is_empty id)) [
        | inl blank ↦ rw blank refl
        | inr solid ↦ elim (Bool-cases (State.cancel g.state id request.reason amb.queued_at).1) [
          | inl accepted ↦ rw (solid, accepted) refl
          | inr refused_it ↦ rw (solid, refused_it) refl
        ]
      ]

  click-streams :
      (p : KafkaProducer) (g : Gateway) (id : String) (amb : Ambient)
      → (Views.cancel p g id amb).0.streams ≡ g.streams
  unfolding Views.cancel Control.announce
  click-streams p g id amb =
      elim (Bool-cases (State.cancel g.state id "cancelled from web UI" amb.queued_at).1) [
        | inl accepted ↦ rw accepted refl
        | inr refused_it ↦ rw refused_it refl
      ]

  submit_waits-streams :
      (p : KafkaProducer) (amb : Ambient) (s : System) (g : Gateway) (begun : Begun)
      → (submit_waits p amb s g begun).gateway.streams ≡ g.streams
  unfolding submit_waits produce
  submit_waits-streams p amb s g (rejected status) = refl
  submit_waits-streams p amb s g (replaying receiver id es) = refl
  submit_waits-streams p amb s g (enqueuing job receiver) = refl

  infer_waits-streams :
      (p : KafkaProducer) (s : System) (g : Gateway) (begun : InferBegun)
      → (infer_waits p s g begun).gateway.streams ≡ g.streams
  unfolding infer_waits produce
  infer_waits-streams p s g (Infer.rejected e) = refl
  infer_waits-streams p s g (Infer.enqueuing job receiver) = refl

  -- A step only registers, sends and unregisters, under identifiers of what waits and of the event
  -- that it hands over.
  pub step-IsMade :
      (M : String → Type 0) (c : Config) (p : KafkaProducer) (s : System) (a : Action)
      → MayTouch M s
      → Every (EventTouches M) (handed_by s a)
      → IsMade M s.gateway.streams (step c p s a).gateway.streams
  unfolding submit_goes_on infer_goes_on handed_by note_event
  step-IsMade M c p s a h =
      let same = IsMade-refl M s.gateway.streams in
      step-Moves c p s
        (λ b s'.
          Every (EventTouches M) (handed_by s b) → IsMade M s.gateway.streams s'.gateway.streams)
        (record {
          stays = λ b stuck e. same;
          submits = λ request amb e.
              rw submit_waits-streams (submit_begin-IsMade M c s.gateway request amb);
          is_answered = λ i w rest found e.
              submit_end-IsMade M s.gateway w.job w.receiver w.ambient w.result
                (take_at-Every (SubmissionTouches M) i s.submissions rest w h.submissions found).0;
          infers = λ request amb e.
              rw infer_waits-streams (infer_begin-IsMade M c s.gateway request amb);
          infer_is_answered =
              λ i receiver result rest found e. infer_end-IsMade M s.gateway receiver result;
          cancels = λ request amb e. rw cancel-streams same;
          clicks = λ id amb e. rw click-streams same;
          notes = λ q now ready e. same;
          hands =
              λ q waiting e. deliver_event-IsMade M q s.gateway (rw (waiting, handed_by) at e).0;
          replays = λ i r rest found e.
              replay_goes_on-IsMade M s r.request_id r.left r.terminal rest
                (take_at-Every (ReplayTouches M) i s.replays rest r h.replays found).0;
        })
        a
