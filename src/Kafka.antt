-- ===== src/Kafka.antt =====
-- control-plane/src/kafka/mod.rs: the messages, the producer, the router of token events and the
-- wait for the topics. rdkafka and serde_json are the interface `Kafka`.
pub mod Messages
pub mod Producer
pub mod Router
pub mod Topics
