-- ===== src/Pow.antt =====
-- src/pow: the proof of work of a block, in the build that calls no C library (xoshiro.go,
-- heavyhash.go, pow.go).
pub mod Xoshiro
pub mod Floats
pub mod Matrix
pub mod Multiply
pub mod State
pub mod Stuck
pub mod Exact
pub mod Check
pub mod Nonce
pub mod Shape
pub mod Shrink
pub mod Fixed
mod Tests
