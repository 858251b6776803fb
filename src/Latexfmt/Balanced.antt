-- ===== src/Latexfmt/Balanced.antt =====
-- The brackets in what latexfmt renders, of expressions whose names have none.
pub mod Names
pub mod Terms
pub mod Sums
mod Powers
mod Products
pub mod Heads
pub mod Operators
pub mod Identity
