-- ===== src/Tests.antt =====
-- A concrete choice of every parameter, and the theorems at concrete inputs.
mod ReadBack
pub mod Sample
mod Discovery
mod Storage
mod Server
mod Settled
mod Converges
mod Process
mod Interleaved
mod Operator
mod Aggregator
mod Watch
mod Startup
mod Codec
pub mod Install
