-- ===== src/System.antt =====
-- The tasks that control-plane/src/main.rs starts over one gateway, and the orders in which their
-- steps can come. A handler's first half and what it hands to the producer are one step, what follows
-- the producer's answer another; the router's steps are the two halves of `route_one`; each send of
-- a replay's task is a step. An action names the task that goes on; one that is not waiting does
-- nothing.
pub mod Cases
pub mod Moves
pub mod Isolation
pub mod Keeping
pub mod Handlers
pub mod Steps
pub mod Table
pub mod Refines
pub mod Answers
pub mod Runs
pub mod Pending
pub mod Touches
pub mod Serving
pub mod Waiting
pub mod Service
pub mod Served
pub mod Intrusion
pub mod Published
pub mod Reports
pub mod Records
pub mod Recorded
use mathlib.Core.Option
use cria.Prelude.{
  ℕ, zero, suc, String, Bool, true, false, Option, none, some, List, [], ◌∷◌, if◌then◌else◌,
}
use cria.Table.{DashMap}
use cria.Config.{Config}
use cria.Pb.{InferenceRequest, CancelRequest, TokenEvent, event_type_of}
use cria.State
use cria.Streaming
use cria.Streaming.{Mpsc, event}
use cria.Kafka.Messages.{Kafka, InferenceJob, TokenEventEnvelope, into_proto}
use cria.Kafka.Producer.{KafkaProducer, ProduceResult}
use cria.Kafka.Router.{is_terminal_event, note_event, deliver_event}
use cria.Gateway.{Gateway}
use cria.Api.Begin.{Ambient, Begun, rejected, replaying, enqueuing, submit_begin}
use cria.Api.Finish.{submit_end, produce}
use cria.Api.Control
use cria.Bff.Infer
use cria.Bff.Infer.{InferRequest, InferBegun, infer_begin, infer_end}
use cria.Bff.Views

-- A submission that waits for the producer, and what that is going to answer.
pub record Submission : Type 0 where
  pub job : InferenceJob
  pub receiver : ℕ
  pub ambient : Ambient
  pub result : ProduceResult

-- A replay's task: the events that are left to send, and whether the last one sent was terminal.
pub record Replay : Type 0 where
  pub request_id : String
  pub left : List TokenEvent
  pub terminal : Bool

-- An element at a place, and the others.
pub take_at : {A : Type 0} → ℕ → List A → Option (A × List A)
take_at i [] = none
take_at zero (x ∷ xs) = some (x, xs)
take_at (suc i) (x ∷ xs) = elim (take_at i xs) [ none ↦ none | some (y, ys) ↦ some (y, x ∷ ys) ]

pub data Action : Type 0 where
  submit_starts : InferenceRequest → Ambient → Action
  submit_ends : ℕ → Action
  infer_starts : InferRequest → Ambient → Action
  infer_ends : ℕ → Action
  cancel_called : CancelRequest → Ambient → Action
  cancel_clicked : String → Ambient → Action
  event_comes : TokenEventEnvelope → ℕ → Action
  event_goes : Action
  replay_goes : ℕ → Action

module _ ⦃d : DashMap⦄ ⦃ch : Mpsc⦄ where
  pub record System : Type 0 where
    pub gateway : Gateway
    pub submissions : List Submission
    pub inferences : List (ℕ × ProduceResult)
    pub replays : List Replay
    -- The event that the router waits to hand over.
    pub delivering : Option TokenEvent

  -- What `main` starts with.
  unfoldable pub started : ch.Net → System
  started net = record {
    gateway = record { state = State.new; streams = Streaming.new net; metrics = []; sent = [] };
    submissions = [];
    inferences = [];
    replays = [];
    delivering = none;
  }

  pub submit_goes_on : System → Submission → List Submission → System
  submit_goes_on s w rest = record s {
    gateway = (submit_end s.gateway w.job w.receiver w.ambient w.result).0;
    submissions = rest;
  }

  pub infer_goes_on : System → ℕ × ProduceResult → List (ℕ × ProduceResult) → System
  infer_goes_on s (receiver, result) rest = record s {
    gateway = (infer_end s.gateway receiver result).0;
    inferences = rest;
  }

  -- One round of the replay's loop, or what follows the loop.
  pub replay_goes_on : System → String → List TokenEvent → Bool → List Replay → System
  replay_goes_on s id [] terminal rest = record s {
    gateway = record s.gateway {
      streams = if terminal then Streaming.unregister s.gateway.streams id else s.gateway.streams;
    };
    replays = rest;
  }
  replay_goes_on s id (e ∷ es) terminal rest = record s {
    gateway = record s.gateway { streams = (Streaming.send s.gateway.streams id (event e)).0 };
    replays =
        record {
          request_id = id;
          left = es;
          terminal = is_terminal_event (event_type_of e.event_type);
        }
        ∷ rest;
  }

  event_noted : System → TokenEventEnvelope → ℕ → System
  event_noted s e now = elim s.delivering [
    | some p ↦ s
    | none ↦ record s {
      gateway = note_event (into_proto e) now s.gateway;
      delivering = some (into_proto e);
    }
  ]

  event_handed : System → System
  event_handed s = elim s.delivering [
    | none ↦ s
    | some p ↦ record s { gateway = deliver_event p s.gateway; delivering = none }
  ]

module _ ⦃d : DashMap⦄ ⦃ch : Mpsc⦄ ⦃k : Kafka⦄ where
  pub submit_waits : KafkaProducer → Ambient → System → Gateway → Begun → System
  submit_waits p amb s g (rejected status) = record s { gateway = g }
  submit_waits p amb s g (replaying receiver id es) = record s {
    gateway = g;
    replays = record { request_id = id; left = es; terminal = false } ∷ s.replays;
  }
  submit_waits p amb s g (enqueuing job receiver) = record s {
    gateway = (produce p g job).0;
    submissions =
        record { job = job; receiver = receiver; ambient = amb; result = (produce p g job).1 }
        ∷ s.submissions;
  }

  pub infer_waits : KafkaProducer → System → Gateway → InferBegun → System
  infer_waits p s g (Infer.rejected e) = record s { gateway = g }
  infer_waits p s g (Infer.enqueuing job receiver) = record s {
    gateway = (produce p g job).0;
    inferences = (receiver, (produce p g job).1) ∷ s.inferences;
  }

  unfoldable pub step : Config → KafkaProducer → System → Action → System
  unfolding take_at submit_goes_on infer_goes_on replay_goes_on event_noted event_handed
      submit_waits infer_waits
  step c p s (submit_starts request amb) =
      let (g, begun) = submit_begin c s.gateway request amb in submit_waits p amb s g begun
  step c p s (submit_ends i) = elim (take_at i s.submissions) [
    | none ↦ s
    | some (w, rest) ↦ submit_goes_on s w rest
  ]
  step c p s (infer_starts request amb) =
      let (g, begun) = infer_begin c s.gateway request amb in infer_waits p s g begun
  step c p s (infer_ends i) = elim (take_at i s.inferences) [
    | none ↦ s
    | some (w, rest) ↦ infer_goes_on s w rest
  ]
  step c p s (cancel_called request amb) = record s {
    gateway = (Control.cancel p s.gateway request amb).0;
  }
  step c p s (cancel_clicked id amb) = record s { gateway = (Views.cancel p s.gateway id amb).0 }
  step c p s (event_comes e now) = event_noted s e now
  step c p s event_goes = event_handed s
  step c p s (replay_goes i) = elim (take_at i s.replays) [
    | none ↦ s
    | some (r, rest) ↦ replay_goes_on s r.request_id r.left r.terminal rest
  ]

  -- The actions in the order in which they come.
  unfoldable pub run : Config → KafkaProducer → System → List Action → System
  run c p s [] = s
  run c p s (a ∷ actions) = run c p (step c p s a) actions
