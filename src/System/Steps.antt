-- ===== src/System/Steps.antt =====
-- Every step of a task keeps the gateway safe, and every replay to its own events.
use cria.Prelude.{String, Bool, List, [], ◌∷◌, Every, Bool-cases, inl, inr}
use cria.Table.{DashMap}
use cria.Config.{Config}
use cria.Pb.{TokenEvent}
use cria.Streaming.{Mpsc}
use cria.Kafka.Messages.{Kafka, into_proto}
use cria.Kafka.Producer.{KafkaProducer}
use cria.Gateway.{Gateway}
use cria.Api.Begin.{Ambient, Begun, rejected, replaying, enqueuing, submit_begin}
use cria.Bff.Infer
use cria.Bff.Infer.{InferBegun, infer_begin}
use cria.System.{
  Replay, System, Action, replay_goes_on, submit_goes_on, infer_goes_on, submit_waits, infer_waits,
  step, run,
}
use cria.System.Pending.{take_at-Every}
use cria.System.Moves.{step-Moves}
use cria.System.Keeping.{AllFor, IsSafe, sent-IsSafe, unregistered-IsSafe}
use cria.System.Handlers.{
  IsOwnReplay, submit_begin-IsSafe, submit_end-IsSafe, infer_begin-IsSafe, infer_end-IsSafe,
  note_event-IsSafe, deliver_event-IsSafe, produce-IsSafe, cancel-IsSafe, click-IsSafe,
}

-- The events that a replay is still to send are its own.
abbrev pub AllReplays : List Replay → Type 0
AllReplays = Every (λ r. AllFor r.request_id r.left)

module _ ⦃d : DashMap⦄ ⦃ch : Mpsc⦄ where
  pub record IsSafeSystem (s : System) : Type 0 where
    pub gateway : IsSafe s.gateway
    pub replays : AllReplays s.replays

  replay_goes_on-IsSafe :
      (s : System) (id : String) (es : List TokenEvent) (terminal : Bool) (rest : List Replay)
      → AllFor id es
      → AllReplays rest
      → IsSafe s.gateway
      → IsSafeSystem (replay_goes_on s id es terminal rest)
  unfolding replay_goes_on
  replay_goes_on-IsSafe s id [] terminal rest own others h = elim (Bool-cases terminal) [
    | inl ended ↦ record {
      gateway = rw ended (unregistered-IsSafe s.gateway id h);
      replays = others;
    }
    | inr going_on ↦ record { gateway = rw going_on h; replays = others }
  ]
  replay_goes_on-IsSafe s id (e ∷ es) terminal rest own others h = record {
    gateway = sent-IsSafe s.gateway e id own.0 h;
    replays = (own.1, others);
  }

module _ ⦃d : DashMap⦄ ⦃ch : Mpsc⦄ ⦃k : Kafka⦄ where
  submit_waits-IsSafe :
      (p : KafkaProducer) (amb : Ambient) (s : System) (g : Gateway) (begun : Begun)
      → IsSafe g × IsOwnReplay begun
      → AllReplays s.replays
      → IsSafeSystem (submit_waits p amb s g begun)
  unfolding submit_waits
  submit_waits-IsSafe p amb s g (rejected status) h others = record {
    gateway = h.0;
    replays = others;
  }
  submit_waits-IsSafe p amb s g (replaying receiver id es) h others = record {
    gateway = h.0;
    replays = (h.1, others);
  }
  submit_waits-IsSafe p amb s g (enqueuing job receiver) h others = record {
    gateway = produce-IsSafe p g job h.0;
    replays = others;
  }

  infer_waits-IsSafe :
      (p : KafkaProducer) (s : System) (g : Gateway) (begun : InferBegun)
      → IsSafe g
      → AllReplays s.replays
      → IsSafeSystem (infer_waits p s g begun)
  unfolding infer_waits
  infer_waits-IsSafe p s g (Infer.rejected e) h others = record { gateway = h; replays = others }
  infer_waits-IsSafe p s g (Infer.enqueuing job receiver) h others = record {
    gateway = produce-IsSafe p g job h;
    replays = others;
  }

  step-IsSafe :
      (c : Config) (p : KafkaProducer) (s : System) (a : Action)
      → IsSafeSystem s
      → IsSafeSystem (step c p s a)
  unfolding submit_goes_on infer_goes_on
  step-IsSafe c p s a h =
      step-Moves c p s (λ b s'. IsSafeSystem s')
        (record {
          stays = λ b stuck. h;
          submits = λ request amb.
              let (g, begun) = submit_begin c s.gateway request amb in
              submit_waits-IsSafe p amb s g begun
                (submit_begin-IsSafe c s.gateway request amb h.gateway) h.replays;
          is_answered = λ i w rest found. record {
            gateway = submit_end-IsSafe s.gateway w.job w.receiver w.ambient w.result h.gateway;
            replays = h.replays;
          };
          infers = λ request amb.
              let (g, begun) = infer_begin c s.gateway request amb in
              infer_waits-IsSafe p s g begun (infer_begin-IsSafe c s.gateway request amb h.gateway)
                h.replays;
          infer_is_answered = λ i receiver result rest found. record {
            gateway = infer_end-IsSafe s.gateway receiver result h.gateway;
            replays = h.replays;
          };
          cancels = λ request amb. record {
            gateway = cancel-IsSafe p s.gateway request amb h.gateway;
            replays = h.replays;
          };
          clicks = λ id amb. record {
            gateway = click-IsSafe p s.gateway id amb h.gateway;
            replays = h.replays;
          };
          notes = λ e now ready. record {
            gateway = note_event-IsSafe (into_proto e) now s.gateway h.gateway;
            replays = h.replays;
          };
          hands = λ e waiting. record {
            gateway = deliver_event-IsSafe e s.gateway h.gateway;
            replays = h.replays;
          };
          replays = λ i r rest found.
              let (own, others) =
                take_at-Every (λ q. AllFor q.request_id q.left) i s.replays rest r h.replays
                  found in
              replay_goes_on-IsSafe s r.request_id r.left r.terminal rest own others h.gateway;
        })
        a

  pub run-IsSafe :
      (c : Config) (p : KafkaProducer) (s : System) (actions : List Action)
      → IsSafeSystem s
      → IsSafeSystem (run c p s actions)
  unfolding run
  run-IsSafe c p s [] h = h
  run-IsSafe c p s (a ∷ actions) h = run-IsSafe c p (step c p s a) actions (step-IsSafe c p s a h)
