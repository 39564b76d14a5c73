-- ===== src/Util.antt =====
-- util/: containers, numbers, and texts that the other parts share.
pub mod Ring
pub mod ArrayQueue
pub mod Heap
pub mod RingFixedQueue
pub mod BitUtil
pub mod Timer
pub mod Json
pub mod Config
pub mod PageTable
mod Tests
