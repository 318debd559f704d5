-- ===== src/Telemetry/Registration.antt =====
-- control-plane/src/telemetry.rs: `Metrics::new`, which registers the metrics one by one with the
-- process's Prometheus registry, and the text that `/metrics` answers.
use Prim.Native.Char.{code}
use cria.Prelude.{
  ℕ, String, ◌≡◌, refl, Bool, true, false, not, ◌&&◌, ◌||◌, Option, none, some, or_else, List, [],
  ◌∷◌, leb, str_eq, ◌==◌, arith, eq_iff,
}

-- `[a-zA-Z_:][a-zA-Z0-9_:]*`, which the crate asks of a metric's name.
abbrev is_name_start : ℕ → Bool
is_name_start c = (leb 97 c && leb c 122) || (leb 65 c && leb c 90) || c == 95 || c == 58

abbrev is_name_part : String → Bool
is_name_part String.[] = true
is_name_part (String.◌∷◌ c s) =
    (is_name_start (code c) || (leb 48 (code c) && leb (code c) 57)) && is_name_part s

abbrev pub is_metric_name : String → Bool
is_metric_name String.[] = false
is_metric_name (String.◌∷◌ c s) = is_name_start (code c) && is_name_part s

-- The `prometheus` crate.
pub record Prometheus : Type 1 where
  pub Registry : Type 0
  pub is_registered : Registry → String → Bool
  -- `register_int_counter!`, `register_int_gauge!` and `register_histogram!`, with a name and a help
  -- text; `none` is an error.
  pub register : Registry → String → String → Option Registry
  pub register-free :
      (r : Registry) (name help : String)
      → is_metric_name name ≡ true
      → is_registered r name ≡ false
      → (r' : Registry) × (register r name help ≡ some r')
        × ((other : String) → is_registered r' other ≡ (str_eq name other || is_registered r other))
  pub register-taken :
      (r : Registry) (name help : String)
      → is_registered r name ≡ true
      → register r name help ≡ none

-- Names and help texts, in the order in which they are registered.
abbrev pub metric_opts : List (String × String)
metric_opts =
    ("inference_requests_total", "Total inference requests accepted by the gateway")
    ∷ ("inference_completed_requests_total", "Total inference requests completed")
    ∷ ("inference_failed_requests_total", "Total inference requests failed")
    ∷ ("inference_cancelled_requests_total", "Total inference requests cancelled")
    ∷ (
      "inference_rejected_requests_total", "Total inference requests rejected by admission control",
    )
    ∷ ("inference_tokens_total", "Total token events routed by the gateway")
    ∷ ("inference_active_streams", "Currently active client streams")
    ∷ ("inference_enqueue_latency_seconds", "Latency to validate and enqueue inference requests")
    ∷ []

module _ ⦃m : Prometheus⦄ where
  -- The first error ends it; what was registered before stays.
  unfoldable pub register_all : m.Registry → List (String × String) → m.Registry × Bool
  register_all r [] = (r, true)
  register_all r ((name, help) ∷ ms) = elim (m.register r name help) [
    | none ↦ (r, false)
    | some r' ↦ register_all r' ms
  ]

  -- `Metrics::new`, and whether it succeeded.
  unfoldable pub new : m.Registry → m.Registry × Bool
  new r = register_all r metric_opts

-- `metrics_handler`: what the encoder wrote, unless it failed, as a text, unless it is none.
unfoldable pub metrics_handler : {Bytes : Type 0} → Option Bytes → (Bytes → Option String) → String
metrics_handler none from_utf8 = "failed to encode metrics"
metrics_handler (some buffer) from_utf8 = or_else (from_utf8 buffer) "metrics encoding was not utf8"

abbrev pub names_any : String → List (String × String) → Bool
names_any name [] = false
names_any name ((other, help) ∷ ms) = str_eq other name || names_any name ms

-- Every name is one, and none stands twice.
abbrev are_apart : List (String × String) → Bool
are_apart [] = true
are_apart ((name, help) ∷ ms) = is_metric_name name && not (names_any name ms) && are_apart ms

module _ ⦃m : Prometheus⦄ where
  abbrev pub none_of : m.Registry → List (String × String) → Bool
  none_of r [] = true
  none_of r ((name, help) ∷ ms) = not (m.is_registered r name) && none_of r ms

  none_of-grown :
      (r r' : m.Registry) (name : String) (ms : List (String × String))
      → ((other : String)
          → m.is_registered r' other ≡ (str_eq name other || m.is_registered r other))
      → names_any name ms ≡ false
      → none_of r ms ≡ true
      → none_of r' ms ≡ true
  none_of-grown r r' name [] grown apart free = refl
  none_of-grown r r' name ((other, help) ∷ ms) grown apart free =
      ground
        (arith, grown other, none_of-grown r r' name ms grown, eq_iff other name, eq_iff name other)

  register_all-free :
      (r : m.Registry) (ms : List (String × String))
      → are_apart ms ≡ true
      → none_of r ms ≡ true
      → let (r', done) = register_all r ms in
        (done ≡ true)
        × ((other : String)
            → m.is_registered r' other ≡ (names_any other ms || m.is_registered r other))
  unfolding register_all
  register_all-free r [] apart free = (refl, λ other. refl)
  register_all-free r ((name, help) ∷ ms) apart free =
      let (r', taken, grown) =
        m.register-free r name help (ground (arith, apart)) (ground (arith, free)) in
      let (done, all) =
        register_all-free r' ms (ground (arith, apart))
          (none_of-grown r r' name ms grown (ground (arith, apart)) (ground (arith, free))) in
      rw (taken, register_all) (done, λ other. ground (arith, all other, grown other))

  register_all-taken :
      (r : m.Registry) (name help : String) (ms : List (String × String))
      → m.is_registered r name ≡ true
      → register_all r ((name, help) ∷ ms) ≡ (r, false)
  unfolding register_all
  register_all-taken r name help ms there =
      rw (m.register-taken r name help there, register_all) refl

  -- In a process that has registered none of the eight names, Metrics::new succeeds and exactly
  -- they are registered more; a second call fails and leaves the registry as it is.
  pub new-once :
      (r : m.Registry)
      → none_of r metric_opts ≡ true
      → let (r', done) = new r in
        (done ≡ true)
        × ((name : String)
            → m.is_registered r' name ≡ (names_any name metric_opts || m.is_registered r name))
        × (new r' ≡ (r', false))
  unfolding new
  new-once r free =
      let r' = (register_all r metric_opts).0 in
      let (done, all) = register_all-free r metric_opts refl free in
      (done, all, register_all-taken r' _ _ _ (all "inference_requests_total"))
