-- ===== src/Kafka/Router/Delivery.antt =====
-- What a run of the router hands to a client.
use mathlib.Core.List.{append-nil, append_assoc}
use cria.Prelude.{
  eq_refl, ℕ, String, ◌≡◌, refl, Bool, true, false, none, some, List, [], ◌∷◌, ◌++◌, map, arith,
  str_eq, eq_iff, if◌then◌else◌, Bool-cases, inl, inr, ◌||◌, ◌&&◌, ◌∙◌,
}
use cria.Table.{DashMap}
use cria.Streaming
use cria.Streaming.{Mpsc, StreamRegistry, StreamItem, event, sender_of}
use cria.Streaming.Wiring.{
  IsWired, send-IsWired, unregister-IsWired, sender_of-send, sender_of-unregister,
}
use cria.Streaming.Delivery.{
  IsHeld, accepted_items, accepted-send_held, accepted-send_ne, accepted-unregister,
}
use cria.Kafka.Messages.{TokenEventEnvelope, into_proto}
use cria.Kafka.Router.{route_one}
use cria.Kafka.Router.Batch.{route_all, own}
use cria.Kafka.Router.Step.{is_terminal_kind, streams-route_one}
use cria.Gateway.{Gateway}

-- The events up to the first terminal one, which is included.
abbrev pub until_terminal : List (TokenEventEnvelope × ℕ) → List (TokenEventEnvelope × ℕ)
until_terminal [] = []
until_terminal ((e, now) ∷ es) =
    let rest = until_terminal es in (e, now) ∷ (if is_terminal_kind e.event_type then [] else rest)

abbrev pub has_terminal : List (TokenEventEnvelope × ℕ) → Bool
has_terminal [] = false
has_terminal ((e, now) ∷ es) = is_terminal_kind e.event_type || has_terminal es

abbrev pub item : TokenEventEnvelope × ℕ → StreamItem
item p = event (into_proto p.0)

module _ ⦃d : DashMap⦄ ⦃ch : Mpsc⦄ where
  -- Nobody writes to the channel.
  abbrev IsQuiet : StreamRegistry → ℕ → Type 0
  IsQuiet s c = (id : String) → ¬ (sender_of s id ≡ some c)

  pub sender_of-route_one :
      (g : Gateway) (e : TokenEventEnvelope) (now : ℕ) (j : String)
      → sender_of (route_one g e now).streams j ≡ (
          if is_terminal_kind e.event_type && str_eq e.request_id j
          then none
          else sender_of g.streams j)
  sender_of-route_one g e now j = elim (Bool-cases (is_terminal_kind e.event_type)) [
    | inl last ↦ rw (streams-route_one, last, sender_of-unregister, sender_of-send) refl
    | inr more ↦ rw (streams-route_one, more, sender_of-send) refl
  ]

  accepted-route_one :
      (g : Gateway) (e : TokenEventEnvelope) (now : ℕ) (c : ℕ)
      → accepted_items (route_one g e now).streams c
        ≡ accepted_items (Streaming.send g.streams e.request_id (event (into_proto e))).0 c
  accepted-route_one g e now c = elim (Bool-cases (is_terminal_kind e.event_type)) [
    | inl last ↦ rw (streams-route_one, last, accepted-unregister) refl
    | inr more ↦ rw (streams-route_one, more) refl
  ]

  route_one-IsWired :
      (g : Gateway) (e : TokenEventEnvelope) (now : ℕ)
      → IsWired g.streams
      → IsWired (route_one g e now).streams
  route_one-IsWired g e now w = elim (Bool-cases (is_terminal_kind e.event_type)) [
    | inl last ↦
        rw (streams-route_one, last)
          (unregister-IsWired _ e.request_id (send-IsWired g.streams e.request_id _ w))
    | inr more ↦ rw (streams-route_one, more) (send-IsWired g.streams e.request_id _ w)
  ]

  quiet-route_all :
      (g : Gateway) (es : List (TokenEventEnvelope × ℕ)) (c : ℕ)
      → IsQuiet g.streams c
      → accepted_items (route_all g es).streams c ≡ accepted_items g.streams c
  unfolding route_all
  quiet-route_all g [] c q = refl
  quiet-route_all g ((e, now) ∷ es) c q =
      quiet-route_all (route_one g e now) es c
        (λ id h. q id (ground (arith, sender_of-route_one g e now id)))
      ∙ accepted-route_one g e now c
      ∙ accepted-send_ne g.streams e.request_id (event (into_proto e)) c (q e.request_id)

  -- The events of another request leave the client's channel and its registration as they are.
  foreign-route_one :
      (g : Gateway) (e : TokenEventEnvelope) (now : ℕ) (j : String) (c : ℕ)
      → IsWired g.streams
      → sender_of g.streams j ≡ some c
      → str_eq e.request_id j ≡ false
      → (accepted_items (route_one g e now).streams c ≡ accepted_items g.streams c)
        × (sender_of (route_one g e now).streams j ≡ some c)
  foreign-route_one g e now j c w h other = (
    accepted-route_one g e now c
        ∙ accepted-send_ne g.streams e.request_id (event (into_proto e)) c
            (λ k. cc (other, (eq_iff e.request_id j).1 (w.apart e.request_id j c k h))),
    ground (arith, sender_of-route_one g e now j),
  )

  -- After a terminal event of its own the channel is written to no more.
  route_one-IsQuiet :
      (g : Gateway) (e : TokenEventEnvelope) (now : ℕ) (c : ℕ)
      → IsWired g.streams
      → sender_of g.streams e.request_id ≡ some c
      → is_terminal_kind e.event_type ≡ true
      → IsQuiet (route_one g e now).streams c
  route_one-IsQuiet g e now c w h last id k =
      ground
        (arith, sender_of-route_one g e now id, w.apart e.request_id id c h, eq_iff e.request_id id)

  unregistered-route_all :
      (g : Gateway) (es : List (TokenEventEnvelope × ℕ)) (j : String)
      → sender_of g.streams j ≡ none
      → sender_of (route_all g es).streams j ≡ none
  unfolding route_all
  unregistered-route_all g [] j h = h
  unregistered-route_all g ((e, now) ∷ es) j h =
      unregistered-route_all (route_one g e now) es j
        (ground (arith, sender_of-route_one g e now j))

  own-route_one :
      (g : Gateway) (e : TokenEventEnvelope) (now : ℕ) (c : ℕ)
      → sender_of g.streams e.request_id ≡ some c
      → IsHeld c
      → (accepted_items (route_one g e now).streams c
          ≡ accepted_items g.streams c ++ item (e, now) ∷ [])
        × (sender_of (route_one g e now).streams e.request_id
            ≡ (if is_terminal_kind e.event_type then none else some c))
  own-route_one g e now c h held = (
    accepted-route_one g e now c ∙ (accepted-send_held g.streams e.request_id _ c h held).0,
    ground (arith, sender_of-route_one g e now e.request_id, eq_refl e.request_id),
  )

  -- A registered client that keeps its receiver, in a registry where no two requests share a
  -- channel, is handed exactly the events of its own request, in the order of the topic, up to and
  -- including the first terminal one; it is unregistered if and only if there was one.
  pub delivered-route_all :
      (g : Gateway) (es : List (TokenEventEnvelope × ℕ)) (j : String) (c : ℕ)
      → IsWired g.streams
      → sender_of g.streams j ≡ some c
      → IsHeld c
      → (accepted_items (route_all g es).streams c
          ≡ accepted_items g.streams c ++ map item (until_terminal (own j es)))
        × (sender_of (route_all g es).streams j
            ≡ (if has_terminal (own j es) then none else some c))
  unfolding route_all own
  delivered-route_all g [] j c w h held = (rw append-nil, h)
  delivered-route_all g ((e, now) ∷ es) j c w h held = elim (Bool-cases (str_eq e.request_id j)) [
    | inl mine ↦
        let same : e.request_id ≡ j = (eq_iff e.request_id j).0 mine in
        let h' : sender_of g.streams e.request_id ≡ some c = rw same h in
        let (handed, left) = own-route_one g e now c h' held in
        elim (Bool-cases (is_terminal_kind e.event_type)) [
          | inl last ↦
              rw (mine, last)
                (
                  quiet-route_all (route_one g e now) es c (route_one-IsQuiet g e now c w h' last)
                      ∙ handed,
                  unregistered-route_all (route_one g e now) es j (ground (arith, left)),
                )
          | inr more ↦
              let (rest, out) =
                delivered-route_all (route_one g e now) es j c (route_one-IsWired g e now w)
                  (ground (arith, left)) held in
              rw (mine, more)
                (
                  rest
                      ∙ rw handed
                          (append_assoc (accepted_items g.streams c) (item (e, now) ∷ []) _),
                  out,
                )
        ]
    | inr other ↦
        let (quiet, kept) = foreign-route_one g e now j c w h other in
        let (rest, out) =
          delivered-route_all (route_one g e now) es j c (route_one-IsWired g e now w) kept held in
        rw other (rest ∙ rw quiet, out)
  ]
