-- ===== src/Queue/RingBuffer/Bounds.antt =====
-- Where the ring reads and writes, and what `Push` does on a full ring.
use native.Mathlib.Nat.{mod-eq_of_lt, mod-eq-sub-mod}
use dsend.Base.{◌+◌, ◌-◌, pos, pos_part, ◌+ℤ◌, +ℤ_pos, ◌≡◌, ap, arith, length, get_or-set_self}
use dsend.Model.{Message, zero_message}
use dsend.Queue.RingBuffer.{RingBuffer, push, peek, size}
use dsend.Queue.RingBuffer.Contents.{IsValid, contents, length-contents}

tail_full : {q : RingBuffer} → IsValid q → length (contents q) ≡ q.cap → q.tail ≡ q.head
tail_full {q} v full = omega (
  arith,
  length-contents q,
  mod-eq-sub-mod {n = q.head + pos_part q.size} {m = q.cap} (omega (arith, length-contents q)),
  mod-eq_of_lt {n = q.head + pos_part q.size - q.cap} {m = q.cap}
      (omega (arith, length-contents q)),
)

-- `Push` does not look whether there is room. On a full ring it overwrites the oldest message,
-- which the next `Pop` would have returned, and `Size` goes past `Capacity`.
pub push_overflow :
    {q : RingBuffer} (m : Message)
    → IsValid q
    → length (contents q) ≡ q.cap
    → (peek (push q m) ≡ m) × (size (push q m) ≡ pos (q.cap + 1))
unfolding push peek size
push_overflow {q} m v full = ground (
  arith,
  tail_full v full,
  get_or-set_self q.items q.head m zero_message,
  length-contents q,
  ap (λ n. n +ℤ pos 1) v.count,
  +ℤ_pos (pos_part q.size) 1,
)
