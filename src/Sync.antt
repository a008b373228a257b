-- ===== src/Sync.antt =====
-- The synchronisation primitives of include/boost/capy/ex for coroutines of one executor.
pub mod Mutex
pub mod Waker
pub mod Counts
pub mod Event
