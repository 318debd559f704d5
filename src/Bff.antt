-- ===== src/Bff.antt =====
-- control-plane/src/bff.rs: the browser's front end over HTTP.
pub mod Infer
pub mod Views
pub mod Leaks
pub mod Agreement
pub mod Cancellation
pub mod Stream
