-- ===== src/System/Moves.antt =====
-- Every outcome of a step, to prove a property of all of them.
use cria.Prelude.{ℕ, String, ◌≡◌, none, some, List, Option-cases, inl, inr}
use cria.Table.{DashMap}
use cria.Config.{Config}
use cria.Pb.{InferenceRequest, CancelRequest, TokenEvent}
use cria.Streaming.{Mpsc}
use cria.Kafka.Messages.{Kafka, TokenEventEnvelope, into_proto}
use cria.Kafka.Producer.{KafkaProducer, ProduceResult}
use cria.Kafka.Router.{note_event, deliver_event}
use cria.Api.Begin.{Ambient, submit_begin}
use cria.Api.Control
use cria.Bff.Infer.{InferRequest, infer_begin}
use cria.Bff.Views
use cria.System.{
  Submission, Replay, System, Action, submit_starts, submit_ends, infer_starts, infer_ends,
  cancel_called, cancel_clicked, event_comes, event_goes, replay_goes, take_at, replay_goes_on,
  submit_goes_on, infer_goes_on, event_noted, event_handed, submit_waits, infer_waits, step,
}

module _ ⦃d : DashMap⦄ ⦃ch : Mpsc⦄ where
  -- The task that the action names does not wait.
  pub data IsStuck (s : System) : Action → Type 0 where
    no_submission : (i : ℕ) → take_at i s.submissions ≡ none → IsStuck s (submit_ends i)
    no_inference : (i : ℕ) → take_at i s.inferences ≡ none → IsStuck s (infer_ends i)
    no_replay : (i : ℕ) → take_at i s.replays ≡ none → IsStuck s (replay_goes i)
    still_held :
        (e : TokenEventEnvelope) (now : ℕ) (p : TokenEvent)
        → s.delivering ≡ some p
        → IsStuck s (event_comes e now)
    nothing_held : s.delivering ≡ none → IsStuck s event_goes

module _ ⦃d : DashMap⦄ ⦃ch : Mpsc⦄ ⦃k : Kafka⦄ (c : Config) (p : KafkaProducer) (s : System)
    (P : Action → System → Type 0) where
  -- What a step is made of: nothing, where the task that the action names does not wait; or the
  -- part of the handler, of the router or of the replay that the action stands for.
  pub record Moves : Type 0 where
    pub stays : (a : Action) → IsStuck s a → P a s
    pub submits :
        (request : InferenceRequest) (amb : Ambient)
        → let (g, begun) = submit_begin c s.gateway request amb in
          P (submit_starts request amb) (submit_waits p amb s g begun)
    pub is_answered :
        (i : ℕ) (w : Submission) (rest : List Submission)
        → take_at i s.submissions ≡ some (w, rest)
        → P (submit_ends i) (submit_goes_on s w rest)
    pub infers :
        (request : InferRequest) (amb : Ambient)
        → let (g, begun) = infer_begin c s.gateway request amb in
          P (infer_starts request amb) (infer_waits p s g begun)
    pub infer_is_answered :
        (i receiver : ℕ) (result : ProduceResult) (rest : List (ℕ × ProduceResult))
        → take_at i s.inferences ≡ some ((receiver, result), rest)
        → P (infer_ends i) (infer_goes_on s (receiver, result) rest)
    pub cancels :
        (request : CancelRequest) (amb : Ambient)
        → P
            (cancel_called request amb)
            (record s { gateway = (Control.cancel p s.gateway request amb).0 })
    pub clicks :
        (id : String) (amb : Ambient)
        → P (cancel_clicked id amb) (record s { gateway = (Views.cancel p s.gateway id amb).0 })
    pub notes :
        (e : TokenEventEnvelope) (now : ℕ)
        → s.delivering ≡ none
        → P (event_comes e now) (record s {
          gateway = note_event (into_proto e) now s.gateway;
          delivering = some (into_proto e);
        })
    pub hands :
        (e : TokenEvent)
        → s.delivering ≡ some e
        → P event_goes (record s { gateway = deliver_event e s.gateway; delivering = none })
    pub replays :
        (i : ℕ) (r : Replay) (rest : List Replay)
        → take_at i s.replays ≡ some (r, rest)
        → P (replay_goes i) (replay_goes_on s r.request_id r.left r.terminal rest)

  pub step-Moves : Moves → (a : Action) → P a (step c p s a)
  unfolding step event_noted event_handed
  step-Moves m (submit_starts request amb) = m.submits request amb
  step-Moves m (submit_ends i) = elim (Option-cases (take_at i s.submissions)) [
    | inl missing ↦ rw (missing, step) (m.stays (submit_ends i) (no_submission i missing))
    | inr ((w, rest), found) ↦ rw (found, step) (m.is_answered i w rest found)
  ]
  step-Moves m (infer_starts request amb) = m.infers request amb
  step-Moves m (infer_ends i) = elim (Option-cases (take_at i s.inferences)) [
    | inl missing ↦ rw (missing, step) (m.stays (infer_ends i) (no_inference i missing))
    | inr (((receiver, result), rest), found) ↦
        rw (found, step) (m.infer_is_answered i receiver result rest found)
  ]
  step-Moves m (cancel_called request amb) = m.cancels request amb
  step-Moves m (cancel_clicked id amb) = m.clicks id amb
  step-Moves m (event_comes e now) = elim (Option-cases s.delivering) [
    | inl ready ↦ rw (ready, event_noted) (m.notes e now ready)
    | inr (q, waiting) ↦
        rw (waiting, event_noted) (m.stays (event_comes e now) (still_held e now q waiting))
  ]
  step-Moves m event_goes = elim (Option-cases s.delivering) [
    | inl ready ↦ rw (ready, event_handed) (m.stays event_goes (nothing_held ready))
    | inr (e, waiting) ↦ rw (waiting, event_handed) (m.hands e waiting)
  ]
  step-Moves m (replay_goes i) = elim (Option-cases (take_at i s.replays)) [
    | inl missing ↦ rw (missing, step) (m.stays (replay_goes i) (no_replay i missing))
    | inr ((r, rest), found) ↦ rw (found, step) (m.replays i r rest found)
  ]
