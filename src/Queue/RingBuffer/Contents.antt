-- ===== src/Queue/RingBuffer/Contents.antt =====
-- A valid ring holds a sequence of messages, and its operations are those of a bounded first-in
-- first-out queue.
use mathlib.Core.Path.{ap₂}
use native.Mathlib.Decide.{dec_lt}
use native.Mathlib.Nat.{add-zero, mod-add-mod, mod-eq-sub-mod, mod-eq_of_lt}
use dsend.Base.{
  ℕ, zero, suc, ◌+◌, ◌-◌, ◌%◌, ◌≤◌, ◌<◌, pos, pos_part, eq_ℤ, ltb_ℤ, nat_eq, ltb, ◌+ℤ◌, ◌-ℤ◌, ◌≡◌,
  ◌≢◌, refl, ap, ◌∙◌, sym, +ℤ_pos, -ℤ_pos, List, [], ◌∷◌, ◌++◌, arith, length, get_or, set,
  get_or-set_self, get_or-set_ne, length-set, length-replicate,
}
use dsend.Model.{Message, zero_message}
use dsend.Queue.RingBuffer.{RingBuffer, new_ring_buffer_queue, push, pop, peek, size, capacity}

module _ (items : List Message) (cap : ℕ) where
  -- the `used` messages from index `start` on, going round at `cap`
  abbrev cells : ℕ → ℕ → List Message
  cells start zero = []
  cells start (suc used) = get_or items start zero_message ∷ cells ((start + 1) % cap) used

  length-cells : (start used : ℕ) → length (cells start used) ≡ used
  length-cells start zero = refl
  length-cells start (suc used) = ap suc (length-cells ((start + 1) % cap) used)

-- The messages in the ring, the oldest first.
unfoldable pub contents : RingBuffer → List Message
contents q = cells q.items q.cap q.head (pos_part q.size)

-- The representation invariant: the storage has `cap` cells, `size` counts those in use, and `tail`
-- is that far behind `head`.
pub record IsValid (q : RingBuffer) : Type 0 where
  pub storage : length q.items ≡ q.cap
  pub count : q.size ≡ pos (pos_part q.size)
  pub fits : pos_part q.size ≤ q.cap
  pub head_in : q.head < q.cap
  pub tail_at : q.tail ≡ (q.head + pos_part q.size) % q.cap

pub length-contents : (q : RingBuffer) → length (contents q) ≡ pos_part q.size
unfolding contents
length-contents q = length-cells q.items q.cap q.head (pos_part q.size)

-- Going on by fewer than `cap` cells does not come back to the cell.
pub onward-ne : {h k cap : ℕ} → h < cap → suc k < cap → (h + suc k) % cap ≢ h
onward-ne {h} {k} {cap} inside short = elim (dec_lt (h + suc k) cap) [
  | no over ↦
      let back = mod-eq-sub-mod {n = h + suc k} {m = cap} (omega arith) in
      let low = mod-eq_of_lt {n = h + suc k - cap} {m = cap} (omega arith) in
      omega (arith, back, low)
  | yes under ↦ omega (arith, mod-eq_of_lt under)
]

next-cell : (cap h k : ℕ) → ((h + k) % cap + 1) % cap ≡ (h + suc k) % cap
next-cell cap h k = rw mod-add-mod (ap (λ j. j % cap) (omega arith))

step-cell : (cap h k : ℕ) → ((h + 1) % cap + k) % cap ≡ (h + suc k) % cap
step-cell cap h k = rw mod-add-mod (ap (λ j. j % cap) (omega arith))

-- A write just behind a cells makes it longer by the message.
cells-set_end :
    (items : List Message) (cap : ℕ) (m : Message) (n h i : ℕ)
    → length items ≡ cap
    → h < cap
    → n < cap
    → i ≡ (h + n) % cap
    → cells (set items i m) cap h (suc n) ≡ cells items cap h n ++ m ∷ []
cells-set_end items cap m zero h i l hh hn e =
    rw (e, add-zero, mod-eq_of_lt hh, get_or-set_self items h m zero_message (omega arith))
cells-set_end items cap m (suc n) h i l hh hn e =
    ap₂ ◌∷◌ (get_or-set_ne items m zero_message (rw e (onward-ne hh hn))) (
      cells-set_end items cap m n ((h + 1) % cap) i l (omega arith) (omega arith)
        (e ∙ sym (step-cell cap h n)))

-- A write into the cell that was read leaves what lies behind it alone.
cells-set_start :
    (items : List Message) (cap : ℕ) (m : Message) (n k h : ℕ)
    → h < cap
    → suc k + n ≤ cap
    → cells (set items h m) cap ((h + suc k) % cap) n ≡ cells items cap ((h + suc k) % cap) n
cells-set_start items cap m zero k h hh hn = refl
cells-set_start items cap m (suc n) k h hh hn =
    ap₂ ◌∷◌ (get_or-set_ne items m zero_message (λ e. onward-ne hh (omega arith) (sym e)))
      (rw (next-cell cap h (suc k)) (cells-set_start items cap m n (suc k) h hh (omega arith)))

-- `Size` is the number of messages in a valid ring.
pub size-contents : {q : RingBuffer} → IsValid q → size q ≡ pos (length (contents q))
unfolding size
size-contents {q} v = rw (length-contents q) v.count

-- The three tests that the engine makes on `Size`, as tests on the number of messages.
module _ {q : RingBuffer} (v : IsValid q) where
  pub size_full : eq_ℤ (size q) (capacity q) ≡ nat_eq (length (contents q)) q.cap
  unfolding capacity
  size_full = rw (size-contents v) (ground arith)

  pub size_zero : eq_ℤ (size q) (pos 0) ≡ nat_eq (length (contents q)) 0
  size_zero = rw (size-contents v) (ground arith)

  pub size_positive : ltb_ℤ (pos 0) (size q) ≡ ltb 0 (length (contents q))
  size_positive = rw (size-contents v) (ground arith)

pub contents-new : (capacity : ℕ) → contents (new_ring_buffer_queue capacity) ≡ []
unfolding contents new_ring_buffer_queue
contents-new capacity = refl

pub cap-new : (capacity : ℕ) → (new_ring_buffer_queue capacity).cap ≡ capacity
unfolding new_ring_buffer_queue
cap-new capacity = refl

pub new_ring_buffer_queue-IsValid :
    (capacity : ℕ) → 0 < capacity → IsValid (new_ring_buffer_queue capacity)
unfolding new_ring_buffer_queue
new_ring_buffer_queue-IsValid capacity h =
    ground (arith, length-replicate capacity zero_message, mod-eq_of_lt h)

-- `Push` on a valid ring that is not full appends the message, and keeps the ring valid and its
-- capacity.
pub push_lem :
    {q : RingBuffer} (m : Message)
    → IsValid q
    → length (contents q) < q.cap
    → IsValid (push q m) × (contents (push q m) ≡ contents q ++ m ∷ []) × ((push q m).cap ≡ q.cap)
unfolding push contents
push_lem {q} m v h = ground (
  arith,
  grown,
  ap pos_part grown,
  length-contents q,
  length-set q.items q.tail m,
  next-cell q.cap q.head n,
  cells-set_end q.items q.cap m n q.head q.tail,
)
  where
    n : ℕ
    n = pos_part q.size

    grown : q.size +ℤ pos 1 ≡ pos (suc n)
    grown = rw v.count (+ℤ_pos n 1 ∙ ap pos (omega arith))

-- `Pop` on a valid ring that is not empty returns what `Peek` shows, the oldest message, removes it,
-- and keeps the ring valid and its capacity.
pub pop_lem :
    {q : RingBuffer}
    → IsValid q
    → 0 < length (contents q)
    → IsValid (pop q).1
      × (contents q ≡ (pop q).0 ∷ contents (pop q).1)
      × (peek q ≡ (pop q).0)
      × ((pop q).1.cap ≡ q.cap)
unfolding pop peek contents
pop_lem {q} v h = ground (
  arith,
  shrunk,
  ap pos_part shrunk,
  length-contents q,
  length-set q.items q.head zero_message,
  step-cell q.cap q.head n,
  ap (cells q.items q.cap q.head) rest,
  ap (λ k. (q.head + k) % q.cap) rest,
  add-zero q.head,
  cells-set_start q.items q.cap zero_message n 0 q.head,
)
  where
    n : ℕ
    n = pos_part q.size - 1

    shrunk : q.size -ℤ pos 1 ≡ pos n
    shrunk = rw v.count (-ℤ_pos (pos_part q.size) 1 (omega (arith, length-contents q)))

    rest : pos_part q.size ≡ suc n
    rest = omega (arith, length-contents q)
