-- ===== src/Route.antt =====
-- The Context Governor (src/context_route.rs).
pub mod Vocabulary
pub mod Explanation
pub mod Encoder
pub mod Request
pub mod Budget
pub mod Checks
pub mod Decided
pub mod Hash
pub mod Signals
pub mod Decision
pub mod Attempt
pub mod Payload
pub mod Execution
pub mod Rules
pub mod Shared
pub mod Validation
pub mod Dispatch
pub mod Negotiation
pub mod Handlers
pub mod Turn
pub mod Execute
mod Examples
