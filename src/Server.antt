-- ===== src/Server.antt =====
-- server.cpp: the receiver, in the order of the source.
pub mod State
pub mod Sequence
pub mod Mss
pub mod Scan
pub mod Ingest
pub mod Session
pub mod Uro
pub mod Program
pub mod Samples
mod Tests
