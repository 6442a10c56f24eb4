-- ===== src/EnvoyUpstream/OpenStream.antt =====
-- crates/ruvoy-envoy-fiber/src/upstream.rs: `OpenStream`.
pub mod Defs
pub mod Settled
pub mod Actions
pub mod Delivery
pub mod Blame
mod Examples
