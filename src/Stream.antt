-- ===== src/Stream.antt =====
-- src/stream.rs: the hand-off between the Ruby owner thread and one Envoy worker stream.
pub mod Defs
pub mod Run
pub mod Invariant
pub mod Order
pub mod Bounds
pub mod Parking
pub mod Slices
mod Examples
