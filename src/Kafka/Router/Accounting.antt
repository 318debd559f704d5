-- ===== src/Kafka/Router/Accounting.antt =====
-- What a run of the router adds to the metrics.
use cria.Prelude.{ap, ℕ, ◌+◌, ◌≡◌, refl, Bool, true, false, List, [], ◌∷◌, arith, if◌then◌else◌}
use cria.Table.{DashMap}
use cria.Streaming.{Mpsc}
use cria.Telemetry.{
  MetricCall, Counter, is_inc, is_up, is_down, calls, calls-append, tokens_total,
  completed_requests, failed_requests, cancelled_requests,
}
use cria.Kafka.Messages.{TokenEventEnvelope, TokenEventKind, proto_type}
use cria.Kafka.Router.{event_metrics, route_one}
use cria.Kafka.Router.Batch.{route_all}
use cria.Kafka.Router.Step.{metrics-route_one, is_terminal_kind}
use cria.Gateway.{Gateway}

-- The counter of an event's kind.
abbrev pub counted_by : Counter → TokenEventKind → Bool
counted_by tokens_total TokenEventKind.token = true
counted_by completed_requests TokenEventKind.completed = true
counted_by failed_requests TokenEventKind.failed = true
counted_by cancelled_requests TokenEventKind.cancelled = true
counted_by _ _ = false

abbrev pub kinds_that : (TokenEventKind → Bool) → List (TokenEventEnvelope × ℕ) → ℕ
kinds_that p [] = 0
kinds_that p ((e, now) ∷ es) = (if p e.event_type then 1 else 0) + kinds_that p es

one_event_inc :
    (c : Counter) (k : TokenEventKind)
    → calls (is_inc c) (event_metrics (proto_type k)) ≡ (if counted_by c k then 1 else 0)
unfolding calls
one_event_inc c k = ground arith

one_event_down :
    (k : TokenEventKind)
    → calls is_down (event_metrics (proto_type k)) ≡ (if is_terminal_kind k then 1 else 0)
unfolding calls
one_event_down k = ground arith

one_event_up : (k : TokenEventKind) → calls is_up (event_metrics (proto_type k)) ≡ 0
unfolding calls
one_event_up k = ground arith

module _ ⦃d : DashMap⦄ ⦃ch : Mpsc⦄ where
  route_all-calls :
      (p : MetricCall → Bool) (q : TokenEventKind → Bool) (g : Gateway)
      (es : List (TokenEventEnvelope × ℕ))
      → ((k : TokenEventKind) → calls p (event_metrics (proto_type k)) ≡ (if q k then 1 else 0))
      → calls p (route_all g es).metrics ≡ calls p g.metrics + kinds_that q es
  unfolding route_all
  route_all-calls p q g [] h = omega arith
  route_all-calls p q g ((e, now) ∷ es) h = omega (
    arith,
    route_all-calls p q (route_one g e now) es h,
    ap (calls p) (metrics-route_one g e now),
    calls-append p g.metrics (event_metrics (proto_type e.event_type)),
    h e.event_type,
  )

  -- Over any list of events each counter grows by the number of events of its kind (those of
  -- submissions by none), the gauge of active streams is lowered once for each terminal event,
  -- delivered again or not, and is never raised.
  pub metrics-route_all :
      (g : Gateway) (es : List (TokenEventEnvelope × ℕ)) (c : Counter)
      → (calls (is_inc c) (route_all g es).metrics
          ≡ calls (is_inc c) g.metrics + kinds_that (counted_by c) es)
        × (calls is_down (route_all g es).metrics
            ≡ calls is_down g.metrics + kinds_that is_terminal_kind es)
        × (calls is_up (route_all g es).metrics ≡ calls is_up g.metrics)
  metrics-route_all g es c = (
    route_all-calls (is_inc c) (counted_by c) g es (one_event_inc c),
    route_all-calls is_down is_terminal_kind g es one_event_down,
    omega (arith, route_all-calls is_up (λ _. false) g es one_event_up, none_of es),
  )
    where
      none_of : (es : List (TokenEventEnvelope × ℕ)) → kinds_that (λ _. false) es ≡ 0
      none_of [] = refl
      none_of (p ∷ es) = omega (arith, none_of es)
