-- ===== src/Worker.antt =====
-- internal/job: the worker that turns jobs into encodes.
pub mod Control
pub mod Filters
pub mod Window
pub mod Guard
pub mod Situation
pub mod Resolve
pub mod Report
pub mod Encode
pub mod Reconcile
pub mod Tick
