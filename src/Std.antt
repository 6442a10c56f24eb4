-- ===== src/Std.antt =====
-- What the program uses of Rust's strings beyond the shared helpers.
pub mod Utf8
pub mod Trim
pub mod Parse
