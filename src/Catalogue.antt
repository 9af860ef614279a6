-- ===== src/Catalogue.antt =====
-- The generations of the catalogue (src/generation.rs, src/ids.rs) and the states of its task
-- sessions (src/task_session.rs), as operations on the tables that they read and write.
pub mod Tables
pub mod Sessions
pub mod Generations
pub mod Sound
pub mod Reachable
pub mod Final
pub mod Terminal
pub mod Activated
pub mod Reconciled
pub mod Begun
mod Examples
