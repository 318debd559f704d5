-- ===== src/System/Service.antt =====
-- A client's stream from its registration on, however the steps of the tasks are interleaved.
use mathlib.Core.List.{append-nil, append_assoc}
use cria.Prelude.{
  ℕ, String, ◌≡◌, refl, ◌∙◌, Bool, false, some, List, [], ◌∷◌, ◌++◌, map, arith, keep, str_eq,
  eq_iff, ◌||◌, ◌↔◌, ◌⊎◌, Every, if◌then◌else◌, Bool-cases, Option-cases, inl, inr,
}
use cria.Table.{DashMap}
use cria.Config.{Config}
use cria.Pb.{TokenEvent, event_type_of}
use cria.Streaming
use cria.Streaming.{Mpsc, StreamRegistry, event, sender_of}
use cria.Streaming.Wiring.{send-IsWired, sender_of-send}
use cria.Streaming.Touch.{
  OtherId, AnyId, IsServed, IsRetired, IsMade-IsServed, IsMade-IsRetired, unregister-IsRetired,
}
use cria.Streaming.Delivery.{IsHeld, accepted_items, accepted-send_held, accepted-unregister}
use cria.Kafka.Messages.{Kafka}
use cria.Kafka.Producer.{KafkaProducer, ProduceResult, produced, refused}
use cria.Kafka.Router.{is_terminal_event, deliver_event}
use cria.Gateway.{Gateway}
use cria.System.{Submission, Replay, System, Action, event_goes, event_handed, step, run}
use cria.System.Pending.{
  TouchesAfter, SubmissionTouches, ReplayTouches, EventTouches, handed_by, MayTouch,
}
use cria.System.Serving.{step-IsMade}
use cria.System.Waiting.{step-MayTouch}

abbrev pub is_last : TokenEvent → Bool
is_last e = is_terminal_event (event_type_of e.event_type)

abbrev pub of_request : String → List TokenEvent → List TokenEvent
of_request id = keep (λ e. str_eq e.request_id id)

-- The events up to the first terminal one, which is included.
abbrev pub until_end : List TokenEvent → List TokenEvent
until_end [] = []
until_end (e ∷ es) = let rest = until_end es in e ∷ (if is_last e then [] else rest)

abbrev pub has_end : List TokenEvent → Bool
has_end [] = false
has_end (e ∷ es) = is_last e || has_end es

any_result : (result : ProduceResult) (id : String) → TouchesAfter AnyId result id
any_result produced id = tt
any_result (refused reason) id = tt

any_submission : (ws : List Submission) → Every (SubmissionTouches AnyId) ws
any_submission [] = tt
any_submission (w ∷ ws) = (any_result w.result w.job.request_id, any_submission ws)

any_replay : (rs : List Replay) → Every (ReplayTouches AnyId) rs
any_replay [] = tt
any_replay (r ∷ rs) = (tt, any_replay rs)

any_event : (es : List TokenEvent) → Every (EventTouches AnyId) es
any_event [] = tt
any_event (e ∷ es) = (tt, any_event es)

module _ ⦃d : DashMap⦄ ⦃ch : Mpsc⦄ where
  -- The stream of the identifier is the channel, and nothing waits that would touch it.
  pub record IsServing (s : System) (id : String) (c : ℕ) : Type 0 where
    pub served : IsServed s.gateway.streams id c
    pub alone : MayTouch (OtherId id) s

  -- The router hands the stream an event of its own.
  deliver_event-own :
      (g : Gateway) (e : TokenEvent) (id : String) (c : ℕ)
      → IsServed g.streams id c
      → IsHeld c
      → e.request_id ≡ id
      → (accepted_items (deliver_event e g).streams c ≡ accepted_items g.streams c ++ event e ∷ [])
        × (if is_last e
            then IsRetired (deliver_event e g).streams c
            else IsServed (deliver_event e g).streams id c)
  unfolding deliver_event
  deliver_event-own g e id c v held mine =
      let r : sender_of g.streams e.request_id ≡ some c = rw mine v.registered in
      let sent = (Streaming.send g.streams e.request_id (event e)).0 in
      let handed = (accepted-send_held g.streams e.request_id (event e) c r held).0 in
      let wired = send-IsWired g.streams e.request_id (event e) v.wired in
      let still : sender_of sent id ≡ some c = rw sender_of-send v.registered in
      elim (Bool-cases (is_last e)) [
        | inl last ↦ rw last (
          accepted-unregister sent e.request_id c ∙ handed,
          unregister-IsRetired sent e.request_id c
              (record { wired = wired; registered = rw sender_of-send r }),
        )
        | inr more ↦ rw more (handed, record { wired = wired; registered = still })
      ]

module _ ⦃d : DashMap⦄ ⦃ch : Mpsc⦄ ⦃k : Kafka⦄ where
  -- The events that the router hands to the registry in a run, in their order.
  unfoldable pub handed : Config → KafkaProducer → System → List Action → List TokenEvent
  handed c p s [] = []
  handed c p s (a ∷ actions) = handed_by s a ++ handed c p (step c p s a) actions

  handed_by-cases :
      (c : Config) (p : KafkaProducer) (s : System) (a : Action)
      → (handed_by s a ≡ [])
        ⊎ ((e : TokenEvent) × (handed_by s a ≡ e ∷ []) × (s.delivering ≡ some e) × (a ≡ event_goes))
  unfolding handed_by
  handed_by-cases c p s event_goes = elim (Option-cases s.delivering) [
    | inl ready ↦ inl (ground (arith, ready))
    | inr (e, waiting) ↦ inr (e, ground (arith, waiting), waiting, refl)
  ]
  handed_by-cases c p s a = inl refl

  foreign-step :
      (c : Config) (p : KafkaProducer) (s : System) (a : Action) (id : String) (i : ℕ)
      → IsServing s id i
      → Every (EventTouches (OtherId id)) (handed_by s a)
      → (accepted_items (step c p s a).gateway.streams i ≡ accepted_items s.gateway.streams i)
        × IsServing (step c p s a) id i
  foreign-step c p s a id i v h =
      let made = step-IsMade (OtherId id) c p s a v.alone h in
      let (same, v') = IsMade-IsServed _ _ id i made v.served in
      (same, record { served = v'; alone = step-MayTouch c p s a id i v.served.registered v.alone })

  IsRetired-step :
      (c : Config) (p : KafkaProducer) (s : System) (a : Action) (i : ℕ)
      → IsRetired s.gateway.streams i
      → (accepted_items (step c p s a).gateway.streams i ≡ accepted_items s.gateway.streams i)
        × IsRetired (step c p s a).gateway.streams i
  IsRetired-step c p s a i q =
      IsMade-IsRetired AnyId _ _ i
        (step-IsMade AnyId c p s a
          (record { submissions = any_submission s.submissions; replays = any_replay s.replays })
          (any_event (handed_by s a)))
        q

  IsRetired-run :
      (c : Config) (p : KafkaProducer) (s : System) (actions : List Action) (i : ℕ)
      → IsRetired s.gateway.streams i
      → (accepted_items (run c p s actions).gateway.streams i ≡ accepted_items s.gateway.streams i)
        × IsRetired (run c p s actions).gateway.streams i
  unfolding run
  IsRetired-run c p s [] i q = (refl, q)
  IsRetired-run c p s (a ∷ actions) i q =
      let (once, q') = IsRetired-step c p s a i q in
      let (rest, q'') = IsRetired-run c p (step c p s a) actions i q' in (rest ∙ once, q'')

  streams-goes :
      (c : Config) (p : KafkaProducer) (s : System) (a : Action) (e : TokenEvent)
      → s.delivering ≡ some e
      → a ≡ event_goes
      → (step c p s a).gateway.streams ≡ (deliver_event e s.gateway).streams
  unfolding step event_handed
  streams-goes c p s a e waiting goes = rw goes (rw (waiting, event_handed) refl)

  own-step :
      (c : Config) (p : KafkaProducer) (s : System) (a : Action) (e : TokenEvent) (id : String)
      (i : ℕ)
      → IsServing s id i
      → IsHeld i
      → s.delivering ≡ some e
      → a ≡ event_goes
      → e.request_id ≡ id
      → (accepted_items (step c p s a).gateway.streams i
          ≡ accepted_items s.gateway.streams i ++ event e ∷ [])
        × (if is_last e
            then IsRetired (step c p s a).gateway.streams i
            else IsServing (step c p s a) id i)
  own-step c p s a e id i v held waiting goes mine =
      let (handed, after) = deliver_event-own s.gateway e id i v.served held mine in
      let path = streams-goes c p s a e waiting goes in
      elim (Bool-cases (is_last e)) [
        | inl last ↦ rw (last, path) (handed, rw last at after)
        | inr more ↦
            let still : IsServed (deliver_event e s.gateway).streams id i = rw more at after in
            rw more (
              rw path handed,
              record {
                served = rw path still;
                alone = step-MayTouch c p s a id i v.served.registered v.alone;
              },
            )
      ]

  -- From a moment in which a client's stream is registered and nothing waits that would touch it,
  -- however the steps of the tasks are interleaved: the client, if it keeps its receiver, is handed
  -- exactly its own request's events, in the order in which the router handed them over, up to and
  -- including the first terminal one, and its stream is registered until then and no longer.
  pub served-run :
      (c : Config) (p : KafkaProducer) (s : System) (actions : List Action) (id : String) (i : ℕ)
      → IsServing s id i
      → IsHeld i
      → let s' = run c p s actions in
        let mine = of_request id (handed c p s actions) in
        (accepted_items s'.gateway.streams i
          ≡ accepted_items s.gateway.streams i ++ map event (until_end mine))
        × ((sender_of s'.gateway.streams id ≡ some i) ↔ (has_end mine ≡ false))
  unfolding run handed
  served-run c p s [] id i v held = (rw append-nil refl, (λ h. refl, λ h. v.served.registered))
  served-run c p s (a ∷ actions) id i v held = elim (handed_by-cases c p s a) [
    | inl none_handed ↦
        let (same, v') = foreign-step c p s a id i v (rw none_handed tt) in
        rw none_handed (rw same at (served-run c p (step c p s a) actions id i v' held))
    | inr (e, one, waiting, goes) ↦ elim (Bool-cases (str_eq e.request_id id)) [
      | inl mine ↦
          let (once, after) = own-step c p s a e id i v held waiting goes ((eq_iff _ _).0 mine) in
          elim (Bool-cases (is_last e)) [
            | inl last ↦
                let (rest, q) = IsRetired-run c p (step c p s a) actions i (rw last at after) in
                rw (one, mine, last)
                  (rest ∙ once, (λ h. absurd (q.quiet id h), λ h. ground (arith, h)))
            | inr more ↦
                let (rest, out) =
                  served-run c p (step c p s a) actions id i (rw more at after) held in
                rw (one, mine, more)
                  (
                    rest
                        ∙ rw once
                            (append_assoc (accepted_items s.gateway.streams i) (event e ∷ []) _),
                    out,
                  )
          ]
      | inr other ↦
          let (same, v') =
            foreign-step c p s a id i v
              (rw one ((λ same. ground (arith, other, eq_iff e.request_id id)), tt)) in
          rw (one, other) (rw same at (served-run c p (step c p s a) actions id i v' held))
    ]
  ]
