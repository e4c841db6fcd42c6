-- ===== src/Edge.antt =====
-- internal/edge: the controller that enrols and registers the device and talks to the operator.
pub mod Interface
pub mod Controller
pub mod Loop
