-- ===== src/Telemetry.antt =====
-- control-plane/src/telemetry.rs: the metrics, as the calls that the code makes of the Prometheus
-- handles, in order. What a handle shows is a count of those calls.
pub mod Registration
use cria.Prelude.{ℕ, ◌+◌, ◌≡◌, Bool, true, false, List, [], ◌∷◌, ◌++◌, if◌then◌else◌, arith}

pub data Counter : Type 0 where
  requests_total completed_requests failed_requests : Counter
  cancelled_requests rejected_requests tokens_total : Counter

-- `active_streams` is the one gauge, `enqueue_latency_seconds` the one histogram.
pub data MetricCall : Type 0 where
  inc : Counter → MetricCall
  active_streams_inc : MetricCall
  active_streams_dec : MetricCall
  enqueue_latency_observe : MetricCall

abbrev pub Metrics : Type 0
Metrics = List MetricCall

abbrev pub is_counter : Counter → Counter → Bool
is_counter requests_total requests_total = true
is_counter completed_requests completed_requests = true
is_counter failed_requests failed_requests = true
is_counter cancelled_requests cancelled_requests = true
is_counter rejected_requests rejected_requests = true
is_counter tokens_total tokens_total = true
is_counter _ _ = false

abbrev pub is_inc : Counter → MetricCall → Bool
is_inc c (inc c') = is_counter c c'
is_inc c _ = false

abbrev pub is_up : MetricCall → Bool
is_up active_streams_inc = true
is_up _ = false

abbrev pub is_down : MetricCall → Bool
is_down active_streams_dec = true
is_down _ = false

-- How many of the calls pass a test.
unfoldable pub calls : (MetricCall → Bool) → Metrics → ℕ
calls p [] = 0
calls p (m ∷ ms) = (if p m then 1 else 0) + calls p ms

pub calls-append :
    (p : MetricCall → Bool) (ms ns : Metrics) → calls p (ms ++ ns) ≡ calls p ms + calls p ns
unfolding calls
calls-append p [] ns = omega arith
calls-append p (m ∷ ms) ns = omega (arith, calls-append p ms ns)
