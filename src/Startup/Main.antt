-- ===== src/Startup/Main.antt =====
-- `main`: the order in which it makes the parts and starts the servers.
use cria.Prelude.{String, Bool, true, false, Option, none, some, List, [], ◌∷◌, ◌≡◌, refl, arith}
use cria.Table.{DashMap}
use cria.Config.{Config, from_env}
use cria.State
use cria.Streaming
use cria.Streaming.{Mpsc}
use cria.Gateway.{Gateway}
use cria.Config.Parse.{Result, ok, err}
use cria.Telemetry.Registration
use cria.Telemetry.Registration.{Prometheus}
use cria.Kafka.Producer.{KafkaProducer}
use cria.Tls.{ServerTlsConfig, load_server_tls}
use cria.Startup.Clients.{Outside, TokenEventConsumer, await_topics, new_producer, new_consumer}
use cria.Startup.Boot.{◌>>=◌, ◌>>◌, attempt, starts}

pub data Method : Type 0 where
  get post : Method

-- The handlers of control-plane/src/bff.rs and control-plane/src/telemetry.rs.
pub data Handler : Type 0 where
  models infer status cancel metrics_handler healthz : Handler

pub record Route : Type 0 where
  pub method : Method
  pub path : String
  pub handler : Handler

abbrev route : String → Method → Handler → Route
route path method handler = record { method = method; path = path; handler = handler }

-- The table of `spawn_bff_server`.
abbrev pub bff_routes : List Route
bff_routes =
    route "/api/models" get models
    ∷ route "/api/infer" post infer
    ∷ route "/api/infer/:request_id/status" get status
    ∷ route "/api/infer/:request_id/cancel" post cancel
    ∷ []

-- The table of `spawn_metrics_server`.
abbrev pub metrics_routes : List Route
metrics_routes = route "/metrics" get metrics_handler ∷ route "/healthz" get healthz ∷ []

abbrev pub accepted_tls : Outside → Option ServerTlsConfig → Result Unit
accepted_tls o none = ok tt
accepted_tls o (some t) = o.tls_config t

abbrev made : Bool → Result Unit
made true = ok tt
made false = err "Duplicate metrics collector registration attempted"

module _ ⦃d : DashMap⦄ ⦃ch : Mpsc⦄ where
  -- `GatewayService` and `BffState`: the configuration, the producer, and the table, the streams and
  -- the metrics, which they share with the router.
  pub record GatewayService : Type 0 where
    pub config : Config
    pub producer : KafkaProducer
    pub gateway : Gateway

  -- What runs: the router, an HTTP server, the gRPC server.
  pub data Service : Type 0 where
    router : TokenEventConsumer → Gateway → Service
    metrics_server : String → List Route → Service
    bff_server : String → List Route → GatewayService → Service
    grpc_server : String → Option ServerTlsConfig → GatewayService → Service

  -- `spawn_metrics_server`.
  abbrev pub spawn_metrics_server : Outside → String → List Service × Result Unit
  spawn_metrics_server o addr = do
    attempt (o.bind addr)
    starts (metrics_server addr metrics_routes)

  -- `spawn_bff_server`.
  abbrev pub spawn_bff_server : Outside → GatewayService → List Service × Result Unit
  spawn_bff_server o g = do
    attempt (o.bind g.config.bff_addr)
    starts (bff_server g.config.bff_addr bff_routes g)

  -- From the gRPC server's builder on.
  unfoldable pub serve_grpc : Outside → GatewayService → List Service × Result Unit
  serve_grpc o g = do
    tls ← attempt (load_server_tls o.read g.config)
    attempt (accepted_tls o tls)
    starts (grpc_server g.config.grpc_addr tls g)
    attempt (o.serve g.config.grpc_addr)

  -- From the spawning of the router on.
  unfoldable pub serve_all :
      Outside → GatewayService → TokenEventConsumer → List Service × Result Unit
  serve_all o g consumer = do
    starts (router consumer g.gateway)
    spawn_metrics_server o g.config.metrics_addr
    spawn_bff_server o g
    serve_grpc o g

  -- `RequestState::new()`, `StreamRegistry::new()` and the new metrics.
  unfoldable pub new_gateway : ch.Net → Gateway
  new_gateway net = record {
    state = State.new;
    streams = Streaming.new net;
    metrics = [];
    sent = [];
  }

module _ ⦃m : Prometheus⦄ where
  -- `Metrics::new()?`.
  abbrev pub new_metrics : m.Registry → Result Unit
  new_metrics r = made (Registration.new r).1

  made-ok : (b : Bool) → made b ≡ ok tt → b ≡ true
  made-ok true h = refl
  made-ok false h = absurd (ground (arith, h))

  pub new_metrics-ok : (r : m.Registry) → new_metrics r ≡ ok tt → (Registration.new r).1 ≡ true
  new_metrics-ok r h = made-ok (Registration.new r).1 h

module _ ⦃d : DashMap⦄ ⦃ch : Mpsc⦄ ⦃m : Prometheus⦄ where
  unfoldable pub main : Outside → m.Registry → ch.Net → List Service × Result Unit
  main o r net = do
    config ← attempt (from_env o.env o.is_addr o.uuid)
    attempt (await_topics o config)
    attempt (new_metrics r)
    producer ← attempt (new_producer o config)
    consumer ← attempt (new_consumer o config)
    serve_all o (record { config = config; producer = producer; gateway = new_gateway net })
        consumer
