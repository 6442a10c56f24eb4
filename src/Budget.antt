-- ===== src/Budget.antt =====
-- src/budget.rs: a bounded counter that releases what it lent when the lease is dropped.
pub mod Defs
pub mod Interleavings
pub mod Acquire
mod Examples
