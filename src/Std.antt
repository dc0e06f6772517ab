-- ===== src/Std.antt =====
-- What the source uses of Rust's standard library on numbers written as text.
pub mod Decimal
pub mod ParseInt
