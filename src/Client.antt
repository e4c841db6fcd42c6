-- ===== src/Client.antt =====
-- internal/client/http: what the device says to the operator, and what it is told.
pub mod Models
pub mod Hardware
pub mod Mapper
pub mod Request
pub mod Http
