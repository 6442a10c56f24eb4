-- ===== src/Chunks.antt =====
-- src/chunks.rs: the Ruby-facing ends of a chunk queue.
pub mod Defs
pub mod Ends
