-- ===== src/Buffers.antt =====
-- The two buffers between threads: include/core/MPSCQueue.h and include/common/RingBuffer.h. A call is one
-- step: RingBuffer's are under its mutex, and the two sides of an MPSCQueue write different indices.
pub mod Round
pub mod Queue
pub mod Ring
pub mod QueueLaws
pub mod RingLaws
pub mod RingMade
