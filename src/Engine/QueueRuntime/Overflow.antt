-- ===== src/Engine/QueueRuntime/Overflow.antt =====
-- cancelReservation, which puts a reserved message back without a look at the room in the queue.
-- Between the reservation and the cancellation the lock is free, and a producer may take the slot.
use mathlib.Core.List.Perm
use dsend.Base.{◌+◌, pos, ◌≡◌, ap, arith, ◌∷◌, [], length, length-append, append_assoc, Perm}
use dsend.Model.{Delivery}
use dsend.Queue.RingBuffer as Ring
use dsend.Queue.RingBuffer.Contents.{contents, push_lem}
use dsend.Queue.RingBuffer.Contents as Contents
use dsend.Queue.RingBuffer.Bounds.{push_overflow}
use dsend.Inflight.Laws as Flight
use dsend.Storage.{Wal, IsWal}
use dsend.Storage.Durable.{reorder}
use dsend.Engine.{Shared}
use dsend.Engine.QueueRuntime.{QueueRuntime}
use dsend.Engine.QueueRuntime.Deliver.{cancel_reservation}
use dsend.Engine.QueueRuntime.Invariant.{Inv, HasRoom}
use dsend.Engine.QueueRuntime.Durable.{live}
use dsend.Engine.QueueRuntime.Tracks.{IsTracked}
use dsend.Engine.QueueRuntime.Sound.{Sound, hook_wal}

module _ {W : Type 0} (q : QueueRuntime) (s : Shared W) (delivery : Delivery) where
  -- On a full queue with a valid ring the cancellation writes over the oldest message: the next message
  -- to leave the queue is the one put back, and the size goes past the capacity.
  pub cancel_overflow :
      Contents.IsValid q.queue
      → length (contents q.queue) ≡ q.queue.cap
      → let q' = (cancel_reservation q s delivery).0 in
        (Ring.peek q'.queue ≡ delivery.message) × (Ring.size q'.queue ≡ pos (q.queue.cap + 1))
  unfolding cancel_reservation
  cancel_overflow v full = push_overflow delivery.message v full

  pub cancel-Inv :
      Inv q
      → HasRoom q
      → IsTracked q.in_flight_manager delivery
      → Inv (cancel_reservation q s delivery).0
  unfolding cancel_reservation
  cancel-Inv v room (entry, e, _, _) =
      let (ring, grown, _) = push_lem delivery.message v.ring room in
      let taken = Flight.remove_lem q.in_flight_manager delivery.ack_token entry v.flight e in
      record {
        ring = ring;
        flight = taken.1;
        balance = omega (
          arith,
          v.balance,
          ap length grown,
          length-append (contents q.queue) (delivery.message ∷ []),
          taken.3,
        );
        dead_letters = v.dead_letters;
      }

  live-cancel :
      Inv q
      → HasRoom q
      → IsTracked q.in_flight_manager delivery
      → Perm (live q) (live (cancel_reservation q s delivery).0)
  unfolding cancel_reservation
  live-cancel v room (entry, e, same, _) =
      let (_, grown, _) = push_lem delivery.message v.ring room in
      let taken = Flight.remove_lem q.in_flight_manager delivery.ack_token entry v.flight e in
      rw (grown, append_assoc, ← same) (Perm.append_left (contents q.queue) taken.2)

pub cancel-Sound :
    {W : Type 0} ⦃wal : Wal W⦄ (laws : IsWal wal) (q : QueueRuntime) (s : Shared W)
    (delivery : Delivery)
    → Sound laws (q, s)
    → HasRoom q
    → IsTracked q.in_flight_manager delivery
    → Sound laws (cancel_reservation q s delivery)
unfolding cancel_reservation
cancel-Sound laws q s delivery t room tracked = record {
  inv = cancel-Inv q s delivery t.inv room tracked;
  durable =
      rw (hook_wal q.remove_token delivery.ack_token s)
        (reorder t.durable (live-cancel q s delivery t.inv room tracked));
}
