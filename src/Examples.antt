-- ===== src/Examples.antt =====
-- The library's statements about control-plane, applied to small gateways.
mod Setup
mod Runs
mod Routing
mod Service
mod Control
mod Browser
mod Orders
mod Served
mod Boot
mod Settings
mod UnitTests
mod Worker
mod WorkerTests
mod Handover
