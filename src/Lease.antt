-- ===== src/Lease.antt =====
-- The writer lease of a workspace (src/catalogue.rs, src/cli.rs).
pub mod Stamps
pub mod Calendar
pub mod Rows
pub mod Operations
pub mod Command
pub mod Holders
pub mod Callers
pub mod Effects
pub mod Exclusive
pub mod Takeover
mod Examples
