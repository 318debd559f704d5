-- ===== src/Startup.antt =====
-- control-plane/src/main.rs: `main`, with `KafkaProducer::new` and `TokenEventConsumer::new` of
-- control-plane/src/kafka/mod.rs and the servers that it spawns. What other code answers during the
-- start is a record of functions; what `main` has started is a list, in order.
pub mod Clients
pub mod Boot
pub mod Main
pub mod Gates
pub mod Routed
pub mod Published
