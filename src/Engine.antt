-- ===== src/Engine.antt =====
-- include/uring_engine.hpp and src/uring_engine.cpp: the wrapper around one io_uring.
pub mod State
pub mod Setup
pub mod Prep
pub mod Pow2
pub mod BufRing
pub mod Reap
pub mod Slots
pub mod Provided
pub mod Memory
pub mod Operations
mod Tests
