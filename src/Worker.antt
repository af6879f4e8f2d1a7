-- ===== src/Worker.antt =====
-- include/worker.hpp and src/worker.cpp: the threads that send and receive.
pub mod Cqe
pub mod Contexts
pub mod Sending
pub mod Client
pub mod Server
pub mod Refill
pub mod Receiver
pub mod Launch
pub mod Zcrx
