-- ===== src/Fiber.antt =====
-- src/fiber.rs: the bridge between the workers and the thread that runs Ruby.
pub mod Wake
pub mod Reactor
pub mod Collect
pub mod Bridge
pub mod Client
pub mod Execute
pub mod Lifecycle
mod Examples
