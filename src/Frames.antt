-- ===== src/Frames.antt =====
-- Allocation of coroutine frames (include/boost/capy/ex).
pub mod Recycling
