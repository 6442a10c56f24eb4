-- ===== src/Worker.antt =====
-- crates/ruvoy-envoy-fiber/src/worker.rs: the HTTP filter, one for each request.
pub mod Defs
pub mod Downstream
pub mod Upload
pub mod Submit
pub mod Upstreams
pub mod Metrics
pub mod Metadata
pub mod Handlers
mod Examples
