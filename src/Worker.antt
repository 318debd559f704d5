-- ===== src/Worker.antt =====
-- workers/python/inference_worker, in Python: the worker that takes the jobs from Kafka, runs them on
-- a backend and publishes the token events that the control plane routes.
pub mod Events
pub mod Backend
pub mod Job
pub mod Loop
pub mod Watcher
pub mod Cancelled
pub mod Handover
pub mod Transcript
pub mod Mock
pub mod Told
pub mod Committed
pub mod Progress
pub mod Conversation
