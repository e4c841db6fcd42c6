-- ===== src/Scheduler.antt =====
-- internal/scheduler: the jobs of the device, and what is done with them.
pub mod Util
pub mod Store
pub mod Create
pub mod Visit
pub mod Interfaces
pub mod Loop
pub mod Receive
pub mod Run
pub mod Resources
pub mod Reconcile
mod Tests
pub mod Evaluate
