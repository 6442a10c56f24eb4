-- ===== src/EnvoyUpstream.antt =====
-- crates/ruvoy-envoy-fiber/src/upstream.rs: the worker's side of upstream calls and streams.
pub mod Headers
pub mod Calls
pub mod OpenStream
