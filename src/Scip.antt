-- ===== src/Scip.antt =====
-- The decoder of SCIP indexes (src/scip_decoder.rs): a reader of the protobuf wire format, the
-- decoders of its messages, and what they guarantee.
pub mod Types
pub mod Reader
pub mod Fields
pub mod Messages
pub mod Index
pub mod Progress
pub mod Steps
pub mod Loop
pub mod Varint
pub mod Encode
pub mod Keeps
pub mod Limits
pub mod Bounded
pub mod RoundTrip
mod Examples
