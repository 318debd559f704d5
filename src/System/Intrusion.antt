-- ===== src/System/Intrusion.antt =====
-- A replay's task sends under an identifier, and not to the stream that it was started for.
use cria.Prelude.{ℕ, ◌≡◌, refl, ◌∙◌, some, List, [], ◌∷◌}
use cria.Table.{DashMap}
use cria.Config.{Config}
use cria.Pb.{InferenceRequest, TokenEvent}
use cria.Streaming
use cria.Streaming.{Mpsc, event, sender_of}
use cria.Streaming.Wiring.{IsWired}
use cria.Streaming.Delivery.{IsHeld, accepted_items, accepted-send_held}
use cria.Kafka.Messages.{Kafka, InferenceJob}
use cria.Kafka.Producer.{KafkaProducer}
use cria.Api.Begin.{Ambient, enqueuing, submit_begin}
use cria.Api.Admission.{submit_begin-IsAdmitted}
use cria.System.{
  Replay, System, submit_starts, replay_goes, take_at, replay_goes_on, submit_waits, step, run,
}
use cria.System.Served.{registered-IsServed, streams-submit_starts}

module _ ⦃d : DashMap⦄ ⦃ch : Mpsc⦄ ⦃k : Kafka⦄ where
  replays-submit_starts :
      (c : Config) (p : KafkaProducer) (s : System) (request : InferenceRequest) (amb : Ambient)
      (job : InferenceJob) (receiver : ℕ)
      → (submit_begin c s.gateway request amb).1 ≡ enqueuing job receiver
      → (step c p s (submit_starts request amb)).replays ≡ s.replays
  unfolding step submit_waits
  replays-submit_starts c p s request amb job receiver h = rw h refl

  streams-replay_goes :
      (c : Config) (p : KafkaProducer) (s : System) (r : Replay) (e : TokenEvent)
      (es : List TokenEvent) (rs : List Replay)
      → s.replays ≡ r ∷ rs
      → r.left ≡ e ∷ es
      → (step c p s (replay_goes 0)).gateway.streams
        ≡ (Streaming.send s.gateway.streams r.request_id (event e)).0
  unfolding step take_at replay_goes_on
  streams-replay_goes c p s r e es rs first left = rw (first, step) (rw left refl)

  -- A replay whose task has an event left to send, while no stream is registered under its
  -- identifier any more, and a new submission that is admitted under that identifier: the task's
  -- next round hands its cached event to the client of the new submission, if that client keeps
  -- its receiver.
  pub replay-intrudes :
      (c : Config) (p : KafkaProducer) (s : System) (request : InferenceRequest) (amb : Ambient)
      (job : InferenceJob) (receiver : ℕ) (r : Replay) (e : TokenEvent) (es : List TokenEvent)
      (rs : List Replay)
      → IsWired s.gateway.streams
      → s.replays ≡ r ∷ rs
      → r.left ≡ e ∷ es
      → r.request_id ≡ job.request_id
      → (submit_begin c s.gateway request amb).1 ≡ enqueuing job receiver
      → IsHeld receiver
      → let s' = run c p s (submit_starts request amb ∷ replay_goes 0 ∷ []) in
        (accepted_items s'.gateway.streams receiver ≡ event e ∷ [])
        × (sender_of s'.gateway.streams job.request_id ≡ some receiver)
  unfolding run
  replay-intrudes c p s request amb job receiver r e es rs w first left same h held =
      let fine = submit_begin-IsAdmitted c s.gateway request amb job receiver h in
      let s' = step c p s (submit_starts request amb) in
      let path = streams-submit_starts c p s request amb job receiver h in
      let (served, fresh) = registered-IsServed s.gateway.streams job.request_id w fine.free in
      let there : sender_of s'.gateway.streams job.request_id ≡ some receiver =
        rw (path, fine.receiver_is) served.registered in
      let empty : accepted_items s'.gateway.streams receiver ≡ [] =
        rw (path, fine.receiver_is) fresh in
      let next =
        streams-replay_goes c p s' r e es rs
          (replays-submit_starts c p s request amb job receiver h ∙ first) left in
      let (handed, taken) =
        accepted-send_held s'.gateway.streams job.request_id (event e) receiver there held in
      rw (next, same, Streaming.Wiring.sender_of-send) (handed ∙ rw empty refl, there)
