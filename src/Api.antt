-- ===== src/Api.antt =====
-- control-plane/src/api/mod.rs: the gRPC service. A handler returns the gateway that it leaves and
-- what it answers. `submit` waits once, for the producer, and the model has its two halves apart:
-- what other tasks do meanwhile comes between them. `Ambient` holds what the handler is told from
-- outside: the new UUID and the readings of the clock.
pub mod Begin
pub mod Finish
pub mod Control
pub mod Admission
pub mod Capacity
pub mod Race
pub mod Failure
pub mod Duplicate
pub mod Replay
pub mod Stream
pub mod Cancellation
