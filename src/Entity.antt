-- ===== src/Entity.antt =====
-- internal/entity: the data that the components exchange.
pub mod State
pub mod Workload
pub mod Job
pub mod Future
pub mod Hardware
pub mod Heartbeat
pub mod Configuration
mod Tests
