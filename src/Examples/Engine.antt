-- ===== src/Examples/Engine.antt =====
-- Runs of a queue runtime.
use dsend.Base.{
  pos, ◌+◌, none, List, [], ◌≡◌, refl, arith, length, Perm, lookup, delete, ◌+ℤ◌, ◌-ℤ◌, insert,
}
use mathlib.Core.List.{Nodup-nil, not-mem-nil}
use dsend.Model.{Record, Delivery}
use dsend.Queue.RingBuffer as Ring
use dsend.Queue.RingBuffer.Contents as Contents
use dsend.Queue.RingBuffer.Contents.{contents, push_lem, new_ring_buffer_queue-IsValid}
use dsend.Engine.QueueRuntime.Overflow.{cancel_overflow}
use dsend.Inflight
use dsend.Session.{is_eligible}
use dsend.Storage.{pending, pending_of, replay}
use dsend.Engine.QueueRuntime.{
  QueueRuntime, new_queue_runtime, subscribe, stamp, next_session, eligible_at, is_expired,
  scan_sessions,
}
use dsend.Engine.QueueRuntime.Produce.{publish, ack, pushed, acked, log_and_push, log_and_remove}
use dsend.Engine.QueueRuntime.Deliver.{
  reserve_delivery, reserve_live, dead_letter_expired_messages, dead_letter_rounds,
  dead_letter_head, hand_out, handed_out, head_dropped, reserve_for, cancel_reservation,
}
use dsend.Engine.QueueRuntime.Invariant.{HasRoom}
use dsend.Engine.QueueRuntime.Tracks.{IsTracked}
use dsend.Engine.QueueRuntime.Durable.{live}
use dsend.Engine.QueueRuntime.Sound.{State, after_publish, Sound}
use dsend.Engine.QueueRuntime.Steps.{
  publishes, subscribes, reserves, cancels, acks, Reach, here, next, Reach-Sound,
}
use dsend.Engine.QueueRuntime.Recovery.{restarted, restarted_lem, restarted-Sound, recovery}
use dsend.Engine.QueueRuntime.Turns.{Chooses, next_session-Chooses}
use dsend.Examples.{list_wal, list_wal-IsWal, message_of, small_config, empty_shared, alice}

abbrev Run : Type 0
Run = State (List Record)

abbrev pub started : Run
started = (restarted "orders" small_config [], empty_shared)

pub started-Sound : Sound list_wal-IsWal started
unfolding list_wal-IsWal pending pending_of lookup replay
started-Sound =
    restarted-Sound list_wal-IsWal "orders" empty_shared small_config (omega arith) Nodup-nil

abbrev pub after_publishing : Run
after_publishing =
    after_publish started (publish started.0 started.1 (message_of "m1") (pos 0) "id" 5)

abbrev pub after_subscribing : Run
after_subscribing = ((subscribe after_publishing.0 alice).0, after_publishing.1)

abbrev after_reserving : Run
after_reserving =
    let r = reserve_delivery after_subscribing.0 after_subscribing.1 (λ _. 6) "token" 7 in
    (r.0, r.1)

abbrev after_acking : Run
after_acking = let r = ack after_reserving.0 after_reserving.1 "token" in (r.0, r.1)

nothing_live : live started.0 ≡ []
nothing_live =
    let (_, queued, flight, _) = restarted_lem "orders" small_config [] (omega arith) in
    rw (queued, flight) refl

token_free : Inflight.get after_subscribing.0.in_flight_manager "token" ≡ none
unfolding Inflight.get new_queue_runtime publish subscribe lookup Ring.size
    Ring.new_ring_buffer_queue Ring.capacity list_wal pushed Inflight.new_manager
token_free = refl

token_unowned : lookup "token" after_subscribing.1.token_owners ≡ none
unfolding new_queue_runtime publish subscribe lookup Ring.size Ring.new_ring_buffer_queue
    Ring.capacity list_wal pushed log_and_push
token_unowned = refl

one_acked : after_acking.0.acked_count ≡ 1
unfolding ack Inflight.get lookup reserve_delivery reserve_live dead_letter_expired_messages
    dead_letter_rounds Ring.size subscribe publish new_queue_runtime Ring.new_ring_buffer_queue
    Ring.capacity list_wal pushed Ring.push ◌+ℤ◌ ◌-ℤ◌ delete insert dead_letter_head hand_out
    handed_out head_dropped reserve_for acked log_and_push log_and_remove eligible_at is_expired
    next_session scan_sessions stamp Inflight.add Inflight.remove Inflight.new_manager Ring.peek
    Ring.pop is_eligible
one_acked = refl

pub subscribing : Reach started after_subscribing
subscribing =
    next
      (next here (
        publishes started.0 started.1 (message_of "m1") (pos 0) "id" 5
          (rw nothing_live not-mem-nil)))
      (subscribes after_publishing.0 after_publishing.1 alice)

reserving : Reach started after_reserving
reserving =
    next subscribing
      (reserves after_subscribing.0 after_subscribing.1 (λ _. 6) "token" 7 token_free token_unowned)

abbrev reserved : Delivery
reserved = record {
  message = record (message_of "m1") { timestamp = 5 };
  ack_token = "token";
  consumer_id = "alice";
}

-- The reservation can be cancelled: the ring is empty, and the delivery is in flight.
room_left : HasRoom after_reserving.0
unfolding Inflight.get lookup reserve_delivery reserve_live dead_letter_expired_messages
    dead_letter_rounds Ring.size subscribe publish new_queue_runtime Ring.new_ring_buffer_queue
    Ring.capacity list_wal pushed Ring.push ◌+ℤ◌ ◌-ℤ◌ delete insert dead_letter_head hand_out
    handed_out head_dropped reserve_for acked log_and_push log_and_remove eligible_at is_expired
    next_session scan_sessions stamp Inflight.add Inflight.remove Inflight.new_manager Ring.peek
    Ring.pop is_eligible contents
room_left = omega arith

still_in_flight : IsTracked after_reserving.0.in_flight_manager reserved
unfolding Inflight.get lookup reserve_delivery reserve_live dead_letter_expired_messages
    dead_letter_rounds Ring.size subscribe publish new_queue_runtime Ring.new_ring_buffer_queue
    Ring.capacity list_wal pushed Ring.push ◌+ℤ◌ ◌-ℤ◌ delete insert dead_letter_head hand_out
    handed_out head_dropped reserve_for acked log_and_push log_and_remove eligible_at is_expired
    next_session scan_sessions stamp Inflight.add Inflight.remove Inflight.new_manager Ring.peek
    Ring.pop is_eligible
still_in_flight = (_, refl, refl, refl)

-- The reservation is cancelled, and then an Ack of its token comes.
abbrev after_cancelling : Run
after_cancelling = cancel_reservation after_reserving.0 after_reserving.1 reserved

cancelling : Reach started after_cancelling
cancelling =
    next reserving (cancels after_reserving.0 after_reserving.1 reserved room_left still_in_flight)

Reach-Sound_example :
    let o = ack after_cancelling.0 after_cancelling.1 "token" in Sound list_wal-IsWal (o.0, o.1)
Reach-Sound_example =
    Reach-Sound list_wal-IsWal started-Sound
      (next cancelling (acks after_cancelling.0 after_cancelling.1 "token"))

recovery_example :
    let q' =
      restarted after_reserving.0.name small_config
        (pending (list_wal-IsWal.log after_reserving.1.wal) after_reserving.0.name) in
    Perm (contents q'.queue) (live after_reserving.0) × Sound list_wal-IsWal (q', after_reserving.1)
recovery_example =
    recovery list_wal-IsWal after_reserving.0 after_reserving.1 small_config (omega arith)
      (Reach-Sound list_wal-IsWal started-Sound reserving)

next_session-Chooses_example : Chooses after_subscribing.0 (next_session after_subscribing.0)
unfolding new_queue_runtime publish subscribe lookup Ring.size Ring.new_ring_buffer_queue
    Ring.capacity list_wal pushed
next_session-Chooses_example = next_session-Chooses after_subscribing.0 (omega arith)

-- A queue of one cell, which is full.
abbrev crowded : QueueRuntime
crowded = record started.0 { queue = Ring.push (Ring.new_ring_buffer_queue 1) (message_of "new") }

abbrev undelivered : Delivery
undelivered = record { message = message_of "old"; ack_token = "token"; consumer_id = "alice" }

crowded-IsValid :
    Contents.IsValid crowded.queue × (length (contents crowded.queue) ≡ crowded.queue.cap)
unfolding Ring.new_ring_buffer_queue Ring.push contents ◌+ℤ◌
crowded-IsValid =
    let (valid, grown, cap) =
      push_lem (message_of "new") (new_ring_buffer_queue-IsValid 1 (omega arith)) (omega arith) in
    (valid, refl)

cancel_overflow_example :
    let q' = (cancel_reservation crowded empty_shared undelivered).0 in
    (Ring.peek q'.queue ≡ message_of "old") × (Ring.size q'.queue ≡ pos (crowded.queue.cap + 1))
cancel_overflow_example =
    cancel_overflow crowded empty_shared undelivered crowded-IsValid.0 crowded-IsValid.1
