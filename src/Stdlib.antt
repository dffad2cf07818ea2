-- ===== src/Stdlib.antt =====
-- The parts of Go's standard library that the code computes with, over code points and bytes.
pub mod Strings
pub mod Json
mod Tests
