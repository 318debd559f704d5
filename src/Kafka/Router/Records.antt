-- ===== src/Kafka/Router/Records.antt =====
-- What a run of the router leaves in a record and in the cache.
use mathlib.Core.Option
use mathlib.Core.Option.{map-map}
use Prim.Native.Nat.{max}
use cria.Prelude.{
  ℕ, String, ◌≡◌, refl, ap, Bool, true, false, some, List, [], ◌∷◌, ◌++◌, map, arith, str_eq,
  eq_iff, if◌then◌else◌, Bool-cases, inl, inr, ◌∙◌,
}
use mathlib.Core.List.{append-nil, append_assoc}
use cria.Kafka.Router.{route_one}
use cria.Table.{DashMap}
use cria.State
use cria.State.{RequestRecord, RequestStatusInternal}
use cria.Streaming.{Mpsc}
use cria.Kafka.Messages.{TokenEventEnvelope, TokenEventKind, into_proto}
use cria.Kafka.Router.Batch.{route_all, own}
use cria.Kafka.Router.Step.{observe, get-route_one, events-route_one}
use cria.Gateway.{Gateway}

-- The events of a request, applied to its record in order.
unfoldable pub observe_all : List (TokenEventEnvelope × ℕ) → RequestRecord → RequestRecord
observe_all [] r = r
observe_all ((e, now) ∷ es) r = observe_all es (observe e now r)

-- The last event decides the status.
abbrev pub status_of : TokenEventKind → RequestStatusInternal
status_of TokenEventKind.started = RequestStatusInternal.running
status_of TokenEventKind.token = RequestStatusInternal.running
status_of TokenEventKind.completed = RequestStatusInternal.completed
status_of TokenEventKind.failed = RequestStatusInternal.failed
status_of TokenEventKind.cancelled = RequestStatusInternal.cancelled

abbrev pub last_status :
    RequestStatusInternal → List (TokenEventEnvelope × ℕ) → RequestStatusInternal
last_status st [] = st
last_status st ((e, now) ∷ es) = last_status (status_of e.event_type) es

abbrev pub counts : TokenEventKind → Bool
counts TokenEventKind.token = true
counts TokenEventKind.completed = true
counts _ = false

-- The highest sequence number of the tokens and completions.
abbrev pub highest : List (TokenEventEnvelope × ℕ) → ℕ
highest [] = 0
highest ((e, now) ∷ es) = max (if counts e.event_type then e.sequence_number else 0) (highest es)

observe-status :
    (e : TokenEventEnvelope) (now : ℕ) (r : RequestRecord)
    → (observe e now r).status ≡ status_of e.event_type
observe-status e now r = ground arith

observe-tokens :
    (e : TokenEventEnvelope) (now : ℕ) (r : RequestRecord)
    → (observe e now r).emitted_tokens
      ≡ max r.emitted_tokens (if counts e.event_type then e.sequence_number else 0)
observe-tokens e now r = ground arith

status-observe_all :
    (es : List (TokenEventEnvelope × ℕ)) (r : RequestRecord)
    → (observe_all es r).status ≡ last_status r.status es
unfolding observe_all
status-observe_all [] r = refl
status-observe_all ((e, now) ∷ es) r =
    status-observe_all es (observe e now r) ∙ ap (λ st. last_status st es) (observe-status e now r)

pub tokens-observe_all :
    (es : List (TokenEventEnvelope × ℕ)) (r : RequestRecord)
    → (observe_all es r).emitted_tokens ≡ max r.emitted_tokens (highest es)
unfolding observe_all
tokens-observe_all [] r = omega arith
tokens-observe_all ((e, now) ∷ es) r =
    omega (arith, tokens-observe_all es (observe e now r), observe-tokens e now r)

module _ ⦃d : DashMap⦄ ⦃ch : Mpsc⦄ where
  pub get-route_all :
      (g : Gateway) (es : List (TokenEventEnvelope × ℕ)) (j : String)
      → State.get (route_all g es).state j
        ≡ Option.map (observe_all (own j es)) (State.get g.state j)
  unfolding route_all own observe_all
  get-route_all g [] j = ground arith
  get-route_all g ((e, now) ∷ es) j = elim (Bool-cases (str_eq e.request_id j)) [
    | inl mine ↦
        let same : e.request_id ≡ j = (eq_iff e.request_id j).0 mine in
        rw (mine, get-route_all (route_one g e now) es j, get-route_one, mine, same, map-map) refl
    | inr other ↦ rw (other, get-route_all (route_one g e now) es j, get-route_one, other) refl
  ]

  -- Over any list of events the cache of a request grows by its own events, in the order of the
  -- topic, and by nothing else.
  pub events-route_all :
      (g : Gateway) (es : List (TokenEventEnvelope × ℕ)) (j : String)
      → State.events (route_all g es).state j
        ≡ State.events g.state j ++ map (λ p. into_proto p.0) (own j es)
  unfolding route_all own
  events-route_all g [] j = rw append-nil
  events-route_all g ((e, now) ∷ es) j = ground (
    arith,
    events-route_all (route_one g e now) es j,
    events-route_one g e now j,
    append_assoc (State.events g.state j) (into_proto e ∷ [])
        (map (λ p. into_proto p.0) (own j es)),
  )

  -- A request with a record, over any list of events: the record stays, its status is what the
  -- last of its own events says, and its count of tokens is the highest of what it was and of the
  -- sequence numbers of its own tokens and completions.
  pub record-route_all :
      (g : Gateway) (es : List (TokenEventEnvelope × ℕ)) (j : String) (r : RequestRecord)
      → State.get g.state j ≡ some r
      → (r' : RequestRecord) × (State.get (route_all g es).state j ≡ some r')
        × (r'.status ≡ last_status r.status (own j es))
        × (r'.emitted_tokens ≡ max r.emitted_tokens (highest (own j es)))
  record-route_all g es j r known = (
    observe_all (own j es) r,
    rw (get-route_all, known) refl,
    status-observe_all (own j es) r,
    tokens-observe_all (own j es) r,
  )
