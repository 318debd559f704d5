-- ===== src/Streaming.antt =====
-- control-plane/src/streaming/mod.rs: the registry of the clients' streams.
mod Channel
mod Registry
pub mod Wiring
pub mod Runs
pub mod Race
pub mod Delivery
pub mod Touch
pub use Channel.*
pub use Registry.{StreamRegistry, SendResult, sent, failed}
unfoldable pub use Registry.{sender_of, new, register, send, unregister}
