-- ===== src/Discovery.antt =====
-- The service discovery of network.go and service_common.go: the names that the networks resolve.
pub mod Text
pub mod Records
pub mod Resolve
pub mod Maps
pub mod Services
pub mod Bindings
mod Tests
