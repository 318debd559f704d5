-- ===== src/Kafka/Router/Redelivery.antt =====
-- Kafka delivers at least once: what a repeated delivery changes.
use mathlib.Core.Option
use mathlib.Core.Option.{map-map}
use mathlib.Core.List.{Memᴰ}
use Prim.Native.Nat.{max}
use cria.Prelude.{
  Option-cases, inl, inr, ℕ, ◌≤◌, String, ◌≡◌, refl, ap, Option, some, List, [], ◌∷◌, ◌++◌, arith,
  eq_iff, if◌then◌else◌,
}
use cria.Table.{DashMap}
use cria.State
use cria.State.{RequestRecord}
use cria.Streaming.{Mpsc}
use cria.Kafka.Messages.{TokenEventEnvelope}
use cria.Kafka.Router.Batch.{route_all, own}
use cria.Kafka.Router.Records.{tokens-observe_all, get-route_all, highest, counts}
use cria.Gateway.{Gateway}

own-append :
    (j : String) (es ds : List (TokenEventEnvelope × ℕ)) → own j (es ++ ds) ≡ own j es ++ own j ds
unfolding own
own-append j [] ds = refl
own-append j ((e, now) ∷ es) ds = ground (arith, own-append j es ds)

highest-append :
    (es ds : List (TokenEventEnvelope × ℕ)) → highest (es ++ ds) ≡ max (highest es) (highest ds)
highest-append [] ds = omega arith
highest-append ((e, now) ∷ es) ds = omega (arith, highest-append es ds)

abbrev weight : TokenEventEnvelope → ℕ
weight e = if counts e.event_type then e.sequence_number else 0

-- The events without the readings of the clock at which they were handled.
abbrev pub events_of : List (TokenEventEnvelope × ℕ) → List TokenEventEnvelope
events_of [] = []
events_of ((e, now) ∷ es) = e ∷ events_of es

-- Among the events of `es` there is `e`, if it is the request's own.
weight-le-highest :
    (j : String) (e : TokenEventEnvelope) (es : List (TokenEventEnvelope × ℕ))
    → e.request_id ≡ j
    → Memᴰ e (events_of es)
    → weight e ≤ highest (own j es)
unfolding own
weight-le-highest j e [] mine m = elim m [ ]
weight-le-highest j e ((e', now) ∷ es) mine (Memᴰ.head same) =
    ground (arith, same, eq_iff e'.request_id j)
weight-le-highest j e ((e', now) ∷ es) mine (Memᴰ.tail m) =
    ground (arith, weight-le-highest j e es mine m)

highest-le :
    (j : String) (ds es : List (TokenEventEnvelope × ℕ))
    → ((e : TokenEventEnvelope) → Memᴰ e (events_of ds) → Memᴰ e (events_of es))
    → highest (own j ds) ≤ highest (own j es)
unfolding own
highest-le j [] es again = omega arith
highest-le j ((e, now) ∷ ds) es again = ground (
  arith,
  highest-le j ds es (λ e' m. again e' (Memᴰ.tail m)),
  λ (mine : e.request_id ≡ j). weight-le-highest j e es mine (again e (Memᴰ.head refl)),
  eq_iff e.request_id j,
)

-- The count of tokens that a client is shown.
abbrev pub tokens_of : Option RequestRecord → Option ℕ
tokens_of = Option.map (λ r. r.emitted_tokens)

module _ ⦃d : DashMap⦄ ⦃ch : Mpsc⦄ where
  -- Events that the router handled before and that Kafka delivers again, at any later readings of
  -- the clock, in any number and order, change no request's count of tokens.
  pub redelivery-tokens :
      (g : Gateway) (es ds : List (TokenEventEnvelope × ℕ)) (j : String)
      → ((e : TokenEventEnvelope) → Memᴰ e (events_of ds) → Memᴰ e (events_of es))
      → tokens_of (State.get (route_all g (es ++ ds)).state j)
        ≡ tokens_of (State.get (route_all g es).state j)
  redelivery-tokens g es ds j again = elim (Option-cases (State.get g.state j)) [
    | inl missing ↦ rw (get-route_all, get-route_all, missing)
    | inr (r, known) ↦
        rw (get-route_all g (es ++ ds) j, get-route_all g es j, known)
          (ap some (
            omega (
              arith,
              tokens-observe_all (own j (es ++ ds)) r,
              tokens-observe_all (own j es) r,
              ap highest (own-append j es ds),
              highest-append (own j es) (own j ds),
              highest-le j ds es again,
            )))
  ]
