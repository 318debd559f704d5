-- ===== src/System/Waiting.antt =====
-- While a stream is registered, nothing new comes to wait under its identifier.
use cria.Prelude.{
  ℕ, String, ◌≡◌, Bool, Option, none, some, List, [], ◌∷◌, arith, Every, Bool-cases, Option-cases,
  inl, inr,
}
use cria.Table.{DashMap}
use cria.Text.{trim, is_empty}
use cria.Config.{Config}
use cria.Pb.{InferenceRequest, TokenEvent}
use cria.State
use cria.Streaming
use cria.Streaming.{Mpsc, StreamRegistry, sender_of}
use cria.Streaming.Touch.{OtherId}
use cria.Kafka.Messages.{Kafka, InferenceJob}
use cria.Kafka.Producer.{KafkaProducer, ProduceResult, produced, refused}
use cria.Gateway.{Gateway}
use cria.Api.Begin.{
  Ambient, Begun, rejected, replaying, enqueuing, replay_cached_events, admit, submit_begin,
}
use cria.Api.Finish.{produce}
use cria.Api.Admission.{register_cases}
use cria.Bff.Infer
use cria.Bff.Infer.{InferBegun}
use cria.System.{
  Replay, System, Action, replay_goes_on, submit_goes_on, infer_goes_on, submit_waits, infer_waits,
  step,
}
use cria.System.Pending.{take_at-Every, TouchesAfter, SubmissionTouches, ReplayTouches, MayTouch}
use cria.System.Moves.{step-Moves}
use cria.Bff.Infer.{infer_begin}
use cria.System.Cases.{submit_begin-cases}

module _ ⦃d : DashMap⦄ ⦃ch : Mpsc⦄ where
  -- What the first half of `submit` leaves waiting stands under an identifier that was free.
  abbrev WasFree : StreamRegistry → Begun → Type 0
  WasFree s (rejected status) = Unit
  WasFree s (replaying receiver id es) = sender_of s id ≡ none
  WasFree s (enqueuing job receiver) = sender_of s job.request_id ≡ none

  replay_cached_events-WasFree :
      (g : Gateway) (id : String) → WasFree g.streams (replay_cached_events g id).1
  unfolding replay_cached_events
  replay_cached_events-WasFree g id = elim (Bool-cases (is_empty (trim id))) [
    | inl blank ↦ rw blank tt
    | inr solid ↦ elim (Option-cases (State.get g.state id)) [
      | inl unknown ↦ rw (solid, unknown) tt
      | inr (r, known) ↦ elim (Option-cases (Streaming.register g.streams id).1) [
        | inl taken ↦ rw (solid, known, taken) tt
        | inr (c, free) ↦ rw (solid, known, free) (register_cases g id c free).0
      ]
    ]
  ]

  admit-WasFree :
      (g : Gateway) (job : InferenceJob) (amb : Ambient) → WasFree g.streams (admit g job amb).1
  unfolding admit
  admit-WasFree g job amb = elim (Option-cases (Streaming.register g.streams job.request_id).1) [
    | inl taken ↦ rw (taken, admit) tt
    | inr (c, free) ↦ rw (free, admit) (register_cases g job.request_id c free).0
  ]

  submit_begin-WasFree :
      (c : Config) (g : Gateway) (request : InferenceRequest) (amb : Ambient)
      → WasFree g.streams (submit_begin c g request amb).1
  submit_begin-WasFree c g request amb =
      submit_begin-cases (λ r. WasFree g.streams r.1) c g request amb (λ status. tt) (λ status. tt)
        (λ id. replay_cached_events-WasFree g id) (λ job its. admit-WasFree g job amb)

  free-OtherId :
      (s : StreamRegistry) (id j : String) (c : ℕ)
      → sender_of s id ≡ some c
      → sender_of s j ≡ none
      → OtherId id j
  free-OtherId s id j c h free same = ground (arith, rw same at free)

  other-touches :
      (id j : String) (result : ProduceResult) → OtherId id j → TouchesAfter (OtherId id) result j
  other-touches id j produced h = tt
  other-touches id j (refused reason) h = h

  replay_goes_on-MayTouch :
      (M : String → Type 0) (s : System) (id : String) (es : List TokenEvent) (terminal : Bool)
      (rest : List Replay)
      → M id
      → Every (ReplayTouches M) rest
      → MayTouch M s
      → MayTouch M (replay_goes_on s id es terminal rest)
  unfolding replay_goes_on
  replay_goes_on-MayTouch M s id [] terminal rest own others h = record {
    submissions = h.submissions;
    replays = others;
  }
  replay_goes_on-MayTouch M s id (e ∷ es) terminal rest own others h = record {
    submissions = h.submissions;
    replays = (own, others);
  }

  -- A step of others, which leaves what waits.
  still :
      {M : String → Type 0} {s : System} {g : Gateway} {l : List (ℕ × ProduceResult)}
      {o : Option TokenEvent}
      → MayTouch M s
      → MayTouch M (record s { gateway = g; inferences = l; delivering = o })
  still h = record { submissions = h.submissions; replays = h.replays }

module _ ⦃d : DashMap⦄ ⦃ch : Mpsc⦄ ⦃k : Kafka⦄ where
  submit_waits-MayTouch :
      (p : KafkaProducer) (amb : Ambient) (s : System) (g : Gateway) (begun : Begun) (id : String)
      (c : ℕ)
      → sender_of s.gateway.streams id ≡ some c
      → WasFree s.gateway.streams begun
      → MayTouch (OtherId id) s
      → MayTouch (OtherId id) (submit_waits p amb s g begun)
  unfolding submit_waits
  submit_waits-MayTouch p amb s g (rejected status) id c r f h = record {
    submissions = h.submissions;
    replays = h.replays;
  }
  submit_waits-MayTouch p amb s g (replaying receiver j es) id c r f h = record {
    submissions = h.submissions;
    replays = (free-OtherId s.gateway.streams id j c r f, h.replays);
  }
  submit_waits-MayTouch p amb s g (enqueuing job receiver) id c r f h = record {
    submissions = (
      other-touches id job.request_id (produce p g job).1
          (free-OtherId s.gateway.streams id job.request_id c r f),
      h.submissions,
    );
    replays = h.replays;
  }

  infer_waits-MayTouch :
      (M : String → Type 0) (p : KafkaProducer) (s : System) (g : Gateway) (begun : InferBegun)
      → MayTouch M s
      → MayTouch M (infer_waits p s g begun)
  unfolding infer_waits
  infer_waits-MayTouch M p s g (Infer.rejected e) h = record {
    submissions = h.submissions;
    replays = h.replays;
  }
  infer_waits-MayTouch M p s g (Infer.enqueuing job receiver) h = record {
    submissions = h.submissions;
    replays = h.replays;
  }

  -- While the stream is registered, no step leaves anything waiting that would touch it.
  pub step-MayTouch :
      (c : Config) (p : KafkaProducer) (s : System) (a : Action) (id : String) (sender : ℕ)
      → sender_of s.gateway.streams id ≡ some sender
      → MayTouch (OtherId id) s
      → MayTouch (OtherId id) (step c p s a)
  unfolding submit_goes_on infer_goes_on
  step-MayTouch c p s a id x r h =
      step-Moves c p s (λ b s'. MayTouch (OtherId id) s')
        (record {
          stays = λ b stuck. h;
          submits = λ request amb.
              let (g, begun) = submit_begin c s.gateway request amb in
              submit_waits-MayTouch p amb s g begun id x r
                (submit_begin-WasFree c s.gateway request amb) h;
          is_answered = λ i w rest found. record {
            submissions =
                (take_at-Every (SubmissionTouches (OtherId id)) i s.submissions rest w h.submissions
                  found).1;
            replays = h.replays;
          };
          infers = λ request amb.
              let (g, begun) = infer_begin c s.gateway request amb in
              infer_waits-MayTouch (OtherId id) p s g begun h;
          infer_is_answered = λ i receiver result rest found. still h;
          cancels = λ request amb. still h;
          clicks = λ i amb. still h;
          notes = λ e now ready. still h;
          hands = λ e waiting. still h;
          replays = λ i w rest found.
              let (own, others) =
                take_at-Every (ReplayTouches (OtherId id)) i s.replays rest w h.replays found in
              replay_goes_on-MayTouch (OtherId id) s w.request_id w.left w.terminal rest own others
                h;
        })
        a
