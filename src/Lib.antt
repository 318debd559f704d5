-- ===== src/Lib.antt =====
-- cria: the control plane (control-plane/, in Rust), a gateway that takes inference requests over gRPC
-- and from a browser, hands them to workers through Kafka, and routes the token events that the
-- workers send back into the clients' streams; and the workers (workers/python/, in Python).
--
-- The parts, and how they interact. Two front ends, the gRPC service and the browser's, share one
-- table of request records, one registry of client streams, one Kafka producer and one set of
-- metrics. A submission is checked, gets a record and a stream, and is sent to the topic of its
-- model. The router reads the topic of token events and for each event changes the record, caches
-- the event, counts it and sends it to the stream; a terminal event ends the stream. A cancellation
-- marks the record and is published for the workers. A worker reads the jobs of its topic one by one,
-- runs each on a backend, publishes the start, the tokens and the end, and commits the message.
--
-- Which file models what:
--   State      control-plane/src/state/mod.rs: `RequestRecord`, `RequestState`. `update` takes the
--              closure of the source as `change`; `stamp` is what the entry holds afterwards.
--   Streaming  control-plane/src/streaming/mod.rs: `StreamRegistry`. `Registry` is the map of
--              senders, `Channel` the interface of `tokio::sync::mpsc`.
--   Telemetry  control-plane/src/telemetry.rs: the handles of `Metrics`, as the calls made of them.
--              `Registration`: `Metrics::new` and `metrics_handler`.
--   Kafka      control-plane/src/kafka/mod.rs. `Messages`: the message types, `into_proto`, the
--              conversions; `Producer`: `KafkaProducer`; `Router`: `route_one` (`note_event` up to
--              its await, `deliver_event` from there) and `route_events`; `Topics`:
--              `wait_for_topics`.
--   Gateway    what the tasks share (`GatewayService` and `BffState` hold clones of it).
--   Api        control-plane/src/api/mod.rs. `Begin`: `submit` up to the producer's await
--              (`submit_begin`, with `identify` and `admit` for its later parts),
--              `replay_cached_events` and its spawned task, `normalize_max_tokens`; `Finish`:
--              `submit` from the await on (`submit_end`) and as a whole; `Control`: `cancel`,
--              `get_status`. The other files hold proofs.
--   Bff        control-plane/src/bff.rs. `Infer`: `infer`, in halves like `submit`, and the events
--              of its stream (`sse_event`); `Views`: `models`, `status`, `cancel`.
--   Config     control-plane/src/config.rs. `Parse`: `env_or`, `optional_env`, `parse_env` and the
--              standard parsers; `Routes`: `parse_model_routes`; `Config` itself: `from_env`,
--              `request_topic_for_model`, `model_ids`.
--   System     the tasks of control-plane/src/main.rs over one gateway: `step` takes one task on to its
--              next await, `run` a list of such steps in any order. `Pending` says what waits and
--              whom it touches, `Service` what `handed` events a client's stream is owed;
--              `Streaming/Touch` has the same for the calls of the registry.
--   Startup    control-plane/src/main.rs: `main`, in `Main`, with `spawn_bff_server` of bff.rs and
--              `spawn_metrics_server` of telemetry.rs. `Clients`: `KafkaProducer::new`,
--              `TokenEventConsumer::new` and the client that `wait_for_topics` makes; `Boot`:
--              sequences of fallible steps, with the services that they have started.
--   Tls        control-plane/src/main.rs: `load_server_tls`.
--   Worker     workers/python/inference_worker. `Events`: events.py; `Backend`: what a backend's
--              `generate` is, as a generator that asks, yields, returns or raises, and the mock
--              backend; `Job`: `process_job` of main.py with `publish_token_event` and `flush` of
--              kafka_io.py; `Loop`: the loop of `main` with `poll_job` and `commit`; `Watcher`:
--              `CancellationWatcher`. `Handover` puts a worker behind
--              `submit`, `Conversation` one in front of the router.
--   Pb         proto/inference.proto: the generated types.
--   Text, HashMap, Table, Prelude: what is used of Rust's `str` and `HashMap`, the interface of
--              `DashMap` with a list of entries that has its behaviour, and shared helpers.
--   Examples   the statements applied to small gateways, and the unit tests of the control plane
--              (`UnitTests`) and of the worker (`WorkerTests`).
--
-- Third-party code is an argument. `DashMap` is a map with its lookup laws, each operation atomic.
-- `Mpsc` has the channels' history: a send that is accepted is added to one channel, and a new
-- channel holds nothing. `Kafka` encodes, parses, and says whether a record is delivered, from all
-- that was sent before. `Prometheus` is a registry of names, which refuses a name that it has and
-- takes a valid one that it has not. A worker's producer may raise at any event, from all that it
-- took before, and its `commit` at any message; what the watcher's polls answer before a check is a
-- function of how many checks there were. The environment, which texts are socket addresses, new UUIDs,
-- the readings of the clock, and at the start what creating a client, binding, reading a file and
-- serving return, are arguments too.
--
-- Bounds and fuel. The records' `u32` and `u64` are numbers, and that counts stay below 2^32 is
-- proved; `as u64` is written as `% 2 ^ 64`; an `f32` is only copied, and kept as its bits. A channel
-- is made with a capacity of 256; only the outcome of a send is modelled, not that it waits for room:
-- a client that keeps its receiver and reads nothing holds up the router, and no statement here says
-- that a send returns.
-- The wait for the topics has fuel for 62 rounds: at a second a round, round 61 comes when a minute
-- is over. `show` has as much fuel as the number it prints, and one more. A worker's generator is
-- finite, for a backend stops at `max_tokens`; a float of its payload is kept as the bits of the
-- control plane's `f32`.
--
-- Orderings. `submit`, `infer` and `route_one` are cut where they await, and each half is one step;
-- what a handler hands to the producer goes out at the end of its first half, and the answer comes
-- with the second. `submit` and `infer` as a whole are the two halves with no other task between
-- them; `System` has them in any order. The handlers run on several threads. Two of them at once
-- within a step are modelled for the check and the insertion of `StreamRegistry::register`
-- (`Streaming/Race`) and for the check of the limit and the insertion of the record in `submit`
-- (`Api/Race`); everywhere else they are one step, the runs of `System` included. A send looks its
-- sender up in the half that follows the await; in the source it does so just before. The gRPC server
-- is listed as started when it is called, which is before it has bound its address.
--
-- Not modelled: tracing and the wait for the signal that ends the process (control-plane/src/main.rs),
-- how an HTTP server finds the route of a request (the tables of routes are there, the matching is
-- axum's), JSON; of the workers the backend that wraps transformers, the settings, and the scripts
-- that measure; the web client, the build script, deployment and scripts.
pub mod Prelude
pub mod Table
pub mod Text
pub mod HashMap
pub mod Config
pub mod Pb
pub mod State
pub mod Telemetry
pub mod Streaming
pub mod Kafka
pub mod Gateway
pub mod Api
pub mod Bff
pub mod Tls
pub mod Worker
pub mod System
pub mod Startup
mod Examples
