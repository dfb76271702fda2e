-- ===== src/Examples.antt =====
-- Concrete inputs: runs of the model, and the theorems of the other modules applied to them.
pub mod Span
pub mod SweepBuffer
pub mod Pushers
pub mod Poppers
pub mod Growers
pub mod Arena
pub mod Heap
pub mod Gc
pub mod Sweep
pub mod Sweeping
pub mod WorkBuffers
