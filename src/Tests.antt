-- ===== src/Tests.antt =====
-- Concrete jobs, executors and environments, on which the theorems are applied.
pub mod Data
pub mod Utilities
pub mod Executors
pub mod Files
pub mod Servers
pub mod Clients
pub mod Pools
pub mod Pollers
pub mod Exchanges
pub mod WorkQueues
pub mod Submitters
pub mod Lifecycles
pub mod Reads
pub mod Runs
