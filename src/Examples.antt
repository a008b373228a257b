-- ===== src/Examples.antt =====
-- The theorems at concrete inputs, and tests of the definitions.
mod Buffers
mod Transfer
mod Strand
mod Pool
mod Mutex
mod Writing
mod Errors
mod Arming
mod Frames
mod Event
mod Windows
mod Guards
mod Exclusion
mod Streams
mod Services
mod Waker
