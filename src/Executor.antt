-- ===== src/Executor.antt =====
-- executor/src: transactions and blocks, the pool, the distribution of transactions over the workers, the
-- master, the workers, and the two executors.
pub mod Types
pub mod Pool
pub mod RoundRobin
pub mod Components
pub mod Worker
pub mod Master
pub mod Sequential
pub mod Authoring
pub mod Validation
pub mod Concurrent
