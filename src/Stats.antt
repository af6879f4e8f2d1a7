-- ===== src/Stats.antt =====
-- include/stats.hpp and src/stats.cpp: the counters of the worker threads, and what is reported.
pub mod Counters
pub mod Totals
pub mod Interleaving
pub mod Report
pub mod Lifetime
mod Tests
