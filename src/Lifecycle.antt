-- ===== src/Lifecycle.antt =====
-- How files live on, are renamed or are deleted between two generations (src/lifecycle.rs).
pub mod Renames
pub mod Groups
mod Paired
pub mod Exact
pub mod Tables
pub mod Records
pub mod Deleted
mod Examples
