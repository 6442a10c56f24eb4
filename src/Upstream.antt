-- ===== src/Upstream.antt =====
-- src/upstream.rs: calls from the application to clusters Envoy was configured with.
pub mod Defs
pub mod Route
pub mod Channel
mod Examples
