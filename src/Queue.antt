-- ===== src/Queue.antt =====
-- internal/queue: the ring buffer of pending messages and the dead letter queue.
pub mod RingBuffer
pub mod Dlq
