-- ===== src/System/Refines.antt =====
-- Runs of the tasks as runs of the table's operations.
use cria.Prelude.{String, ◌≡◌, refl, Bool, List, [], ◌∷◌, Bool-cases, inl, inr}
use cria.Table.{DashMap}
use cria.Text.{trim, is_empty}
use cria.Config.{Config}
use cria.Pb.{CancelRequest, TokenEvent}
use cria.State
use cria.State.{
  RequestState, queued_record, finish_failed, finish_completed, finish_cancelled, mark_running,
  note_token,
}
use cria.Streaming.{Mpsc}
use cria.Kafka.Messages.{Kafka, into_proto}
use cria.Kafka.Producer.{KafkaProducer}
use cria.Kafka.Router.{deliver_event}
use cria.Gateway.{Gateway}
use cria.Api.Begin.{Ambient, Begun, rejected, replaying, enqueuing}
use cria.Api.Finish.{produce}
use cria.Api.Control
use cria.Bff.Infer
use cria.Bff.Infer.{
  InferRequest, InferBegun, filled_or, infer_job, infer_admit, infer_begin, infer_end,
}
use cria.Bff.Views
use cria.System.{
  Replay, System, Action, replay_goes_on, submit_goes_on, infer_goes_on, submit_waits, infer_waits,
  step, run,
}
use cria.System.Moves.{step-Moves}
use cria.System.Table.{
  IsReached, IsReached-refl, IsReached-trans, cancelled-IsReached, submit_begin-IsReached,
  submit_end-IsReached, infer_begin-IsReached, infer_end-IsReached, note_event-IsReached,
}

module _ ⦃d : DashMap⦄ ⦃ch : Mpsc⦄ where
  pub deliver_event-state : (p : TokenEvent) (g : Gateway) → (deliver_event p g).state ≡ g.state
  unfolding deliver_event
  deliver_event-state p g = refl

  pub replay_goes_on-state :
      (s : System) (id : String) (es : List TokenEvent) (terminal : Bool) (rest : List Replay)
      → (replay_goes_on s id es terminal rest).gateway.state ≡ s.gateway.state
  unfolding replay_goes_on
  replay_goes_on-state s id [] terminal rest = refl
  replay_goes_on-state s id (e ∷ es) terminal rest = refl

module _ ⦃d : DashMap⦄ ⦃ch : Mpsc⦄ ⦃k : Kafka⦄ where
  cancel-IsReached :
      (p : KafkaProducer) (g : Gateway) (request : CancelRequest) (amb : Ambient)
      → IsReached g.state (Control.cancel p g request amb).0.state
  unfolding Control.cancel Control.announce
  cancel-IsReached p g request amb =
      let id = trim request.request_id in
      let once = cancelled-IsReached g.state id request.reason amb.queued_at in
      elim (Bool-cases (is_empty id)) [
        | inl blank ↦ rw blank (IsReached-refl g.state)
        | inr solid ↦ elim (Bool-cases (State.cancel g.state id request.reason amb.queued_at).1) [
          | inl accepted ↦ rw (solid, accepted) once
          | inr refused_it ↦ rw (solid, refused_it) once
        ]
      ]

  click-IsReached :
      (p : KafkaProducer) (g : Gateway) (id : String) (amb : Ambient)
      → IsReached g.state (Views.cancel p g id amb).0.state
  unfolding Views.cancel Control.announce
  click-IsReached p g id amb =
      let once = cancelled-IsReached g.state id "cancelled from web UI" amb.queued_at in
      elim (Bool-cases (State.cancel g.state id "cancelled from web UI" amb.queued_at).1) [
        | inl accepted ↦ rw accepted once
        | inr refused_it ↦ rw refused_it once
      ]

  pub submit_waits-state :
      (p : KafkaProducer) (amb : Ambient) (s : System) (g : Gateway) (begun : Begun)
      → (submit_waits p amb s g begun).gateway.state ≡ g.state
  unfolding submit_waits produce
  submit_waits-state p amb s g (rejected status) = refl
  submit_waits-state p amb s g (replaying receiver id es) = refl
  submit_waits-state p amb s g (enqueuing job receiver) = refl

  pub infer_waits-state :
      (p : KafkaProducer) (s : System) (g : Gateway) (begun : InferBegun)
      → (infer_waits p s g begun).gateway.state ≡ g.state
  unfolding infer_waits produce
  infer_waits-state p s g (Infer.rejected e) = refl
  infer_waits-state p s g (Infer.enqueuing job receiver) = refl

  step-IsReached :
      (c : Config) (p : KafkaProducer) (s : System) (a : Action)
      → IsReached s.gateway.state (step c p s a).gateway.state
  unfolding submit_goes_on infer_goes_on
  step-IsReached c p s a =
      step-Moves c p s (λ b s'. IsReached s.gateway.state s'.gateway.state)
        (record {
          stays = λ b stuck. IsReached-refl s.gateway.state;
          submits =
              λ request amb. rw submit_waits-state (submit_begin-IsReached c s.gateway request amb);
          is_answered =
              λ i w rest found. submit_end-IsReached s.gateway w.job w.receiver w.ambient w.result;
          infers =
              λ request amb. rw infer_waits-state (infer_begin-IsReached c s.gateway request amb);
          infer_is_answered =
              λ i receiver result rest found. infer_end-IsReached s.gateway receiver result;
          cancels = λ request amb. cancel-IsReached p s.gateway request amb;
          clicks = λ id amb. click-IsReached p s.gateway id amb;
          notes = λ e now ready. note_event-IsReached (into_proto e) now s.gateway;
          hands = λ e waiting. rw deliver_event-state (IsReached-refl s.gateway.state);
          replays = λ i r rest found. rw replay_goes_on-state (IsReached-refl s.gateway.state);
        })
        a

  -- However the steps of the tasks are interleaved, the table of records is what some sequence of
  -- the table's own operations makes of the table at the start: no task changes it in any other
  -- way.
  pub run-IsReached :
      (c : Config) (p : KafkaProducer) (s : System) (actions : List Action)
      → IsReached s.gateway.state (run c p s actions).gateway.state
  unfolding run
  run-IsReached c p s [] = IsReached-refl s.gateway.state
  run-IsReached c p s (a ∷ actions) =
      IsReached-trans s.gateway.state (step c p s a).gateway.state _ (step-IsReached c p s a)
        (run-IsReached c p (step c p s a) actions)
