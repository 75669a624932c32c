-- ===== src/Examples/Storage.antt =====
-- A ring of two cells, and an in-flight map with one entry.
use dsend.Base.{
  ◌+◌, String, none, some, [], ◌∷◌, ◌++◌, ◌≡◌, refl, arith, Perm, str_eq, if◌then◌else◌, ◌+ℤ◌,
  lookup, insert,
}
use dsend.Model.{InFlightMessage}
use dsend.Queue.RingBuffer.{RingBuffer, new_ring_buffer_queue, push, pop, peek}
use dsend.Queue.RingBuffer.Contents.{
  IsValid, contents, push_lem, pop_lem, new_ring_buffer_queue-IsValid,
}
use dsend.Inflight.{Manager, new_manager, add, remove, get, size}
use dsend.Inflight.Laws as Flight
use dsend.Inflight.Laws.{messages, new_manager_lem, add_lem, remove_lem}
use dsend.Examples.{message_of}

abbrev ring : RingBuffer
ring = new_ring_buffer_queue 2

abbrev one : RingBuffer
one = push ring (message_of "m1")

ring-IsValid : IsValid ring
ring-IsValid = new_ring_buffer_queue-IsValid 2 (omega arith)

one_contents : IsValid one × (contents one ≡ message_of "m1" ∷ [])
unfolding push new_ring_buffer_queue contents ◌+ℤ◌
one_contents = ((push_lem (message_of "m1") ring-IsValid (omega arith)).0, refl)

push_lem_example :
    IsValid (push one (message_of "m2"))
    × (contents (push one (message_of "m2")) ≡ contents one ++ message_of "m2" ∷ [])
    × ((push one (message_of "m2")).cap ≡ one.cap)
unfolding push new_ring_buffer_queue contents ◌+ℤ◌
push_lem_example = push_lem (message_of "m2") one_contents.0 (omega arith)

pop_lem_example :
    IsValid (pop one).1
    × (contents one ≡ (pop one).0 ∷ contents (pop one).1)
    × (peek one ≡ (pop one).0)
    × ((pop one).1.cap ≡ one.cap)
unfolding push new_ring_buffer_queue contents ◌+ℤ◌
pop_lem_example = pop_lem one_contents.0 (omega arith)

abbrev manager : Manager
manager = add new_manager "token" (message_of "m1") "alice" 5

abbrev entry : InFlightMessage
entry = record { message = message_of "m1"; consumer_id = "alice"; delivered_at = 5 }

manager-IsValid : Flight.IsValid manager
unfolding get new_manager lookup
manager-IsValid = (add_lem new_manager "token" (message_of "m1") "alice" 5 new_manager_lem.0 refl).0

remove_lem_example :
    ((remove manager "token").0 ≡ some entry)
    × Flight.IsValid (remove manager "token").1
    × Perm (messages manager) (entry.message ∷ messages (remove manager "token").1)
    × (size manager ≡ size (remove manager "token").1 + 1)
    × ((other : String)
        → get (remove manager "token").1 other
          ≡ (if str_eq "token" other then none else get manager other))
unfolding get add new_manager lookup insert
remove_lem_example = remove_lem manager "token" entry manager-IsValid refl
