-- ===== src/Process.antt =====
-- crates/ruvoy-envoy-fiber/src/runtime.rs: the configuration, and the one runtime of the process.
pub mod Config
pub mod Runtime
pub mod Terms
pub mod Once
pub mod Bootstrap
mod Examples
