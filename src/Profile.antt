-- ===== src/Profile.antt =====
-- internal/profile: the profiles of the device and what their conditions evaluate to.
pub mod Results
pub mod Evaluator
pub mod Manager
pub mod Server
mod Tests
