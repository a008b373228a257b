-- ===== src/Exec.antt =====
-- include/boost/capy/ex and src/ex: where continuations wait, and who runs them.
pub mod Queue
pub mod Pool
pub mod Strand
pub mod Guard
pub mod Services
