-- ===== src/Startup/Gates.antt =====
-- What stands before what in `main`.
use cria.Prelude.{
  ℕ, zero, suc, String, ◌≡◌, refl, sym, ◌∙◌, true, ltb, Option, List, [], ◌∷◌, arith, ◌⊎◌, inl, inr,
  Bool-cases,
}
use cria.Table.{DashMap}
use cria.Config.{Config, from_env}
use cria.Streaming.{Mpsc}
use cria.Gateway.{Gateway}
use cria.System.{started}
use cria.Config.Parse.{Result, ok, err, >>=-eq-ok}
use cria.Telemetry.Registration
use cria.Telemetry.Registration.{Prometheus}
use cria.Kafka.Topics.{
  Waited, ready, timed_out, out_of_fuel, wait_from, wait_for_topics, available, used_topics,
  awaited_topics, available-awaited,
}
use cria.Kafka.Producer.{KafkaProducer}
use cria.Tls.{ServerTlsConfig, load_server_tls}
use cria.Startup.Clients.{
  Outside, TokenEventConsumer, context, waited, topic_wait_settings, await_topics, new_producer,
  new_consumer,
}
use cria.Startup.Boot.{◌>>=◌, attempt}
use cria.Startup.Main.{
  Service, router, metrics_server, bff_server, grpc_server, GatewayService, bff_routes,
  metrics_routes, accepted_tls, new_metrics, new_metrics-ok, serve_grpc, serve_all, new_gateway,
  main,
}

abbrev Fails : {A : Type 0} → Result A → Type 0
Fails (ok a) = ⊥
Fails (err message) = Unit

attempt-cases :
    {S A B : Type 0} (r : Result A) (next : A → List S × Result B)
    → ((message : String) × ((attempt r >>= next) ≡ ([], err message)))
      ⊎ ((a : A) × (r ≡ ok a) × ((attempt r >>= next) ≡ next a))
attempt-cases (err message) next = inl (message, refl)
attempt-cases (ok a) next = inr (a, refl, refl)

wait_from-ready :
    (topics : List String) (fetch : ℕ → Option (List String)) (elapsed : ℕ → ℕ) (fuel round : ℕ)
    → wait_from topics fetch elapsed fuel round ≡ ready
    → (n : ℕ) × (available topics (fetch n) ≡ true)
unfolding wait_from
wait_from-ready topics fetch elapsed zero round h = absurd (ground (arith, h))
wait_from-ready topics fetch elapsed (suc fuel) round h =
    elim (Bool-cases (available topics (fetch round))) [
      | inl there ↦ (round, there)
      | inr missing ↦ elim (Bool-cases (ltb 60000 (elapsed round))) [
        | inl late ↦ absurd (ground (arith, h, missing, late))
        | inr early ↦
            wait_from-ready topics fetch elapsed fuel (suc round)
              (ground (arith, h, missing, early))
      ]
    ]

waited-ready : (w : Waited) → waited w ≡ ok tt → w ≡ ready
waited-ready ready h = refl
waited-ready timed_out h = absurd (ground (arith, h))
waited-ready out_of_fuel h = absurd (ground (arith, h))

await_topics-available :
    (o : Outside) (c : Config)
    → await_topics o c ≡ ok tt
    → (n : ℕ) × (available (used_topics c) (o.fetch n) ≡ true)
unfolding await_topics wait_for_topics
await_topics-available o c h =
    let (made, _, rest) =
      >>=-eq-ok
        (context "failed to create Kafka metadata consumer" (o.create (topic_wait_settings c)))
        (λ made. waited (wait_for_topics c o.fetch o.elapsed)) h in
    let (n, there) =
      wait_from-ready (awaited_topics c) o.fetch o.elapsed 62 0
        (waited-ready (wait_for_topics c o.fetch o.elapsed) rest) in
    (n, sym (available-awaited c (o.fetch n)) ∙ there)

Result-cases :
    {A : Type 0} (r : Result A) → ((message : String) × (r ≡ err message)) ⊎ ((a : A) × (r ≡ ok a))
Result-cases (err message) = inl (message, refl)
Result-cases (ok a) = inr (a, refl)

module _ ⦃d : DashMap⦄ ⦃ch : Mpsc⦄ where
  -- How far the servers came: each failure leaves what was started before it, and the gRPC server is
  -- started with the TLS settings that were loaded and accepted.
  pub data HasServed (o : Outside) (g : GatewayService) (t : TokenEventConsumer)
      : List Service × Result Unit → Type 0 where
    no_metrics_server : (message : String) → HasServed o g t (router t g.gateway ∷ [], err message)
    no_bff_server :
        (message : String)
        → HasServed o g t (
          router t g.gateway ∷ metrics_server g.config.metrics_addr metrics_routes ∷ [],
          err message,
        )
    no_grpc_server :
        (message : String)
        → HasServed o g t (
          router t g.gateway
              ∷ metrics_server g.config.metrics_addr metrics_routes
              ∷ bff_server g.config.bff_addr bff_routes g
              ∷ [],
          err message,
        )
    all_served :
        (tls : Option ServerTlsConfig)
        → load_server_tls o.read g.config ≡ ok tls
        → accepted_tls o tls ≡ ok tt
        → HasServed o g t (
          router t g.gateway
              ∷ metrics_server g.config.metrics_addr metrics_routes
              ∷ bff_server g.config.bff_addr bff_routes g
              ∷ grpc_server g.config.grpc_addr tls g
              ∷ [],
          o.serve g.config.grpc_addr,
        )

  serve_all-HasServed :
      (o : Outside) (g : GatewayService) (t : TokenEventConsumer)
      → HasServed o g t (serve_all o g t)
  unfolding serve_all serve_grpc
  serve_all-HasServed o g t = elim (Result-cases (o.bind g.config.metrics_addr)) [
    | inl (message, fails) ↦ rw fails (no_metrics_server message)
    | inr (_, bound) ↦ elim (Result-cases (o.bind g.config.bff_addr)) [
      | inl (message, fails) ↦ rw (bound, fails) (no_bff_server message)
      | inr (_, bound_bff) ↦ elim (Result-cases (load_server_tls o.read g.config)) [
        | inl (message, fails) ↦ rw (bound, bound_bff, fails) (no_grpc_server message)
        | inr (tls, loaded) ↦ elim (Result-cases (accepted_tls o tls)) [
          | inl (message, fails) ↦ rw (bound, bound_bff, loaded, fails) (no_grpc_server message)
          | inr (_, accepted) ↦
              rw (bound, bound_bff, loaded, accepted) (all_served tls loaded accepted)
        ]
      ]
    ]
  ]

module _ ⦃d : DashMap⦄ ⦃ch : Mpsc⦄ ⦃m : Prometheus⦄ where
  -- What was settled before the first task was started, for a run that goes on as the outcome says.
  pub record IsReady (o : Outside) (r : m.Registry) (net : ch.Net)
      (outcome : List Service × Result Unit) : Type 0 where
    pub config : Config
    pub config_read : from_env o.env o.is_addr o.uuid ≡ ok config
    pub round : ℕ
    pub topics_there : available (used_topics config) (o.fetch round) ≡ true
    pub metered : (Registration.new r).1 ≡ true
    pub producer : KafkaProducer
    pub producer_made : new_producer o config ≡ ok producer
    pub consumer : TokenEventConsumer
    pub consumer_made : new_consumer o config ≡ ok consumer
    pub gateway : Gateway
    pub gateway_new : gateway ≡ (started net).gateway
    pub served :
        HasServed o
          (record { config = config; producer = producer; gateway = gateway })
          consumer
          outcome

  -- Either main fails and has started nothing; or, before it started anything, the configuration
  -- was read, a round came in which the broker named every topic that the configuration uses, the
  -- eight metrics were registered, and the producer and the consumer were made: then the router,
  -- the metrics server, the browser's server and the gRPC server are started in this order, all
  -- with that one configuration over one new gateway, up to the first failure, the last with the
  -- TLS settings that were loaded and accepted, and only in that case can main succeed.
  pub main-outcome :
      (o : Outside) (r : m.Registry) (net : ch.Net)
      → ((message : String) × (main o r net ≡ ([], err message))) ⊎ IsReady o r net (main o r net)
  unfolding main new_gateway started
  main-outcome o r net = elim (Result-cases (from_env o.env o.is_addr o.uuid)) [
    | inl (message, fails) ↦ inl (message, rw fails refl)
    | inr (c, config_read) ↦ elim (Result-cases (await_topics o c)) [
      | inl (message, fails) ↦ inl (message, rw (config_read, fails) refl)
      | inr (_, awaited) ↦ elim (Result-cases (new_metrics r)) [
        | inl (message, fails) ↦ inl (message, rw (config_read, awaited, fails) refl)
        | inr (_, metered) ↦ elim (Result-cases (new_producer o c)) [
          | inl (message, fails) ↦ inl (message, rw (config_read, awaited, metered, fails) refl)
          | inr (p, producer_made) ↦ elim (Result-cases (new_consumer o c)) [
            | inl (message, fails) ↦
                inl (message, rw (config_read, awaited, metered, producer_made, fails) refl)
            | inr (t, consumer_made) ↦ inr (record {
              config = c;
              config_read = config_read;
              round = (await_topics-available o c awaited).0;
              topics_there = (await_topics-available o c awaited).1;
              metered = new_metrics-ok r metered;
              producer = p;
              producer_made = producer_made;
              consumer = t;
              consumer_made = consumer_made;
              gateway = new_gateway net;
              gateway_new = refl;
              served =
                  rw (config_read, awaited, metered, producer_made, consumer_made)
                    (serve_all-HasServed o
                      (record { config = c; producer = p; gateway = new_gateway net }) t);
            })
          ]
        ]
      ]
    ]
  ]
