-- ===== src/Metrics.antt =====
-- How much of the supplied context a task used (src/context_metrics.rs).
pub mod Types
pub mod Identity
pub mod Derive
pub mod Separate
pub mod Yield
pub mod Fractions
mod Examples
