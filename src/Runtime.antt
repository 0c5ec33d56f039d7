-- ===== src/Runtime.antt =====
-- The daemon's runtime (src/daemon/runtime): a module for each class.
pub mod Machine
pub mod Lifecycle
pub mod AudioBuffer
pub mod Pipeline
pub mod Controller
