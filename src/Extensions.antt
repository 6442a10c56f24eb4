-- ===== src/Extensions.antt =====
-- src/extensions.rs: what Ruby sees of a request's context and of its upstream calls.
pub mod Headers
pub mod Calls
pub mod Received
pub mod Hashes
mod Examples
