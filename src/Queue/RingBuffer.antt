-- ===== src/Queue/RingBuffer.antt =====
-- internal/queue/ring_buffer.go. Its functions are sealed: the children prove what a client may know.
-- A read or write past `items` panics in Go; here it reads the zero message or writes nothing, and
-- `Bounds` rules it out for a valid ring. `head` and `tail` are never negative; `size` may be, since
-- `Pop` does not look.
pub mod Contents
pub mod Bounds
use dsend.Base.{ℕ, ◌+◌, ◌%◌, ℤ, pos, ◌+ℤ◌, ◌-ℤ◌, List, get_or, set, replicate}
use dsend.Model.{Message, zero_message}

-- RingBufferQueue
pub record RingBuffer : Type 0 where
  pub items : List Message
  pub head : ℕ
  pub tail : ℕ
  pub size : ℤ
  pub cap : ℕ

-- NewRingBufferQueue
unfoldable pub new_ring_buffer_queue : ℕ → RingBuffer
new_ring_buffer_queue capacity = record {
  items = replicate capacity zero_message;
  head = 0;
  tail = 0;
  size = pos 0;
  cap = capacity;
}

-- Push
unfoldable pub push : RingBuffer → Message → RingBuffer
push q message = record q {
  items = set q.items q.tail message;
  tail = (q.tail + 1) % q.cap;
  size = q.size +ℤ pos 1;
}

-- Pop
unfoldable pub pop : RingBuffer → Message × RingBuffer
pop q = (
  get_or q.items q.head zero_message,
  record q {
    items = set q.items q.head zero_message;
    head = (q.head + 1) % q.cap;
    size = q.size -ℤ pos 1;
  },
)

-- Peek
unfoldable pub peek : RingBuffer → Message
peek q = get_or q.items q.head zero_message

-- Size
unfoldable pub size : RingBuffer → ℤ
size q = q.size

-- Capacity
unfoldable pub capacity : RingBuffer → ℤ
capacity q = pos q.cap
