-- ===== src/Util.antt =====
-- src/util: helpers that the executor and the network layer share.
pub mod Align
pub mod Stats
pub mod Semaphore
