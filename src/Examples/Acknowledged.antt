-- ===== src/Examples/Acknowledged.antt =====
-- A message that is published, reserved and acknowledged.
use dsend.Base.{
  ap, map, inr, Option, false, true, pos, ◌+ℤ◌, ◌-ℤ◌, ◌+◌, none, some, List, [], ◌∷◌, ◌≡◌, refl,
  Perm, lookup, insert, lookup-insert,
}
use mathlib.Core.List.{not-mem-nil}
use dsend.Model.{Record, InFlightMessage, Delivery}
use dsend.Queue.RingBuffer as Ring
use dsend.Inflight
use dsend.Inflight.{new_manager}
use dsend.Inflight.Laws as Flight
use dsend.Session.{is_eligible}
use dsend.Engine.{err_invalid_ack_token}
use dsend.Engine.QueueRuntime.{
  QueueRuntime, new_queue_runtime, set_token_hooks, subscribe, stamp, next_session, eligible_at,
  is_expired, scan_sessions,
}
use dsend.Engine.QueueRuntime.Resubscribed.{resubscribe-Negative}
use dsend.Engine.QueueRuntime.Produce as Produce
use dsend.Engine.QueueRuntime.Produce.{publish, pushed, log_and_push, acknowledged_record}
use dsend.Engine.QueueRuntime.Deliver.{
  reserve_delivery, reserve_live, dead_letter_expired_messages, dead_letter_rounds,
  dead_letter_head, hand_out, handed_out, head_dropped, reserve_for, dispatch,
}
use dsend.Engine.QueueRuntime.Sound.{State, after_publish}
use dsend.Engine.QueueRuntime.Steps as RuntimeSteps
use dsend.Engine.Broker.{new_runtime, new_in_memory_broker, put_queue}
use dsend.Engine.Broker.Startup.{with_queues, with_default_queue, restore_queues}
use dsend.Engine.Broker.Messages.{ack}
use dsend.Engine.Broker.Steps.{Reach, here, next, works}
use dsend.Engine.Broker.Owned.Reached.{first-IsOwned}
use dsend.Engine.Broker.Acknowledged.{ack_in_flight}
use dsend.Session.{ConsumerSession, has_room, new_consumer_session}
use dsend.Engine.{Shared}
use dsend.Server.{forwarder}
use dsend.Client.Loopback.{idle}
use dsend.Client.Received.{of_delivery, pull}
use dsend.Client.Delivered.{in_flight_for, delivery-Received}
use dsend.Examples.Server.{calm}
use dsend.Examples.Client.{live}
use dsend.Examples.{list_wal, list_wal-IsWal, message_of, small_config, empty_shared, alice}
use dsend.Examples.Broker.{Run, started, started-Sound}
use dsend.Examples.Publishing.{nothing_live}

abbrev before : State (List Record)
before = (new_runtime small_config "default" [], empty_shared)

abbrev publishing : State (List Record)
publishing = after_publish before (publish before.0 before.1 (message_of "m1") (pos 0) "id" 5)

abbrev subscribing : State (List Record)
subscribing = ((subscribe publishing.0 alice).0, publishing.1)

abbrev reserving : State (List Record)
reserving = let r = reserve_delivery subscribing.0 subscribing.1 (λ _. 6) "token" 7 in (r.0, r.1)

-- the broker with such a runtime
abbrev holding : State (List Record) → Run → Run
holding t b = put_queue (record b { shared = t.1 }) "default" t.0

default_found : lookup "default" started.queues ≡ some before.0
unfolding with_queues new_in_memory_broker with_default_queue restore_queues lookup insert
default_found = refl

token_free : Inflight.get subscribing.0.in_flight_manager "token" ≡ none
unfolding Inflight.get new_queue_runtime new_runtime set_token_hooks publish subscribe lookup
    Ring.size Ring.new_ring_buffer_queue Ring.capacity list_wal pushed log_and_push
    Inflight.new_manager
token_free = refl

token_unowned : lookup "token" subscribing.1.token_owners ≡ none
unfolding new_queue_runtime new_runtime set_token_hooks publish subscribe lookup Ring.size
    Ring.new_ring_buffer_queue Ring.capacity list_wal pushed log_and_push
token_unowned = refl

running : Reach started (holding reserving (holding subscribing (holding publishing started)))
unfolding with_queues new_in_memory_broker
running =
    next
      (next
        (next here (
          works started "default" before.0 _ publishing.1 default_found (
            RuntimeSteps.publishes before.0 before.1 (message_of "m1") (pos 0) "id" 5
              (rw (nothing_live "default") not-mem-nil))))
        (works (holding publishing started) "default" publishing.0 _ subscribing.1
          (rw lookup-insert refl) (RuntimeSteps.subscribes publishing.0 publishing.1 alice)))
      (works (holding subscribing (holding publishing started)) "default" subscribing.0 _
        reserving.1 (rw lookup-insert refl)
        (RuntimeSteps.reserves subscribing.0 subscribing.1 (λ _. 6) "token" 7 token_free
          token_unowned))

abbrev item : InFlightMessage
item = record {
  message = record (message_of "m1") { timestamp = 5 };
  consumer_id = "alice";
  delivered_at = 7;
}

abbrev delivery : Delivery
delivery = record { message = item.message; ack_token = "token"; consumer_id = "alice" }

abbrev reservation : QueueRuntime × Shared (List Record) × Option (ConsumerSession × Delivery)
reservation = reserve_delivery subscribing.0 subscribing.1 (λ _. 6) "token" 7

-- The session that is chosen, with the delivery, which is in flight.
reserved :
    (reservation.2 ≡ some (alice, delivery))
    × (Inflight.get reserving.0.in_flight_manager "token" ≡ some item)
unfolding Inflight.get lookup reserve_delivery reserve_live dead_letter_expired_messages
    dead_letter_rounds Ring.size subscribe publish new_queue_runtime new_runtime set_token_hooks
    Ring.new_ring_buffer_queue Ring.capacity list_wal pushed Ring.push ◌+ℤ◌ ◌-ℤ◌ insert
    dead_letter_head hand_out handed_out head_dropped reserve_for log_and_push eligible_at
    is_expired next_session scan_sessions stamp Inflight.add Inflight.new_manager Ring.peek Ring.pop
    is_eligible
reserved = (refl, refl)

still_open : (holding reserving (holding subscribing (holding publishing started))).closed ≡ false
unfolding with_queues new_in_memory_broker with_default_queue restore_queues
still_open = refl

logged : (list_wal.append reserving.1.wal (acknowledged_record reserving.0 item)).1 ≡ true
unfolding list_wal
logged = refl

ack_in_flight_example :
    let o = ack (holding reserving (holding subscribing (holding publishing started))) "token" in
    (o.1 ≡ none)
    × ((q' : QueueRuntime) × (lookup "default" o.0.queues ≡ some q')
        × (q'.acked_count ≡ reserving.0.acked_count + 1)
        × Perm
            (Flight.messages reserving.0.in_flight_manager)
            (item.message ∷ Flight.messages q'.in_flight_manager))
    × ((ack o.0 "token").1 ≡ some err_invalid_ack_token)
ack_in_flight_example =
    ack_in_flight list_wal-IsWal "default" "token" reserving.0 item started-Sound
      (first-IsOwned list_wal-IsWal small_config empty_shared) running still_open
      (rw lookup-insert refl) reserved.1 logged

room : has_room alice ≡ true
unfolding has_room
room = refl

delivery-Received_example :
    let (q2, s2) = dispatch true reserving.0 reserving.1 alice delivery in
    let b = holding subscribing started in
    let c = put_queue (record b { shared = s2 }) "default" q2 in
    let sub = some (forwarder "default" "alice" 1) in
    (b' : Run) × (pull live 1 (calm, (c, idle sub))
      ≡ ((calm, (b', idle sub)), map (λ d. inr (of_delivery d)) (delivery ∷ [])))
    × (delivery.ack_token ≡ "token")
    × (Inflight.get q2.in_flight_manager "token" ≡ some (in_flight_for delivery 7))
delivery-Received_example =
    delivery-Received live calm refl (holding subscribing started) "default" subscribing.0
      reserving.0 reserving.1 (λ _. 6) "token" 7 alice delivery true
      (ap (λ (o : Option (ConsumerSession × Delivery)). (reserving.0, reserving.1, o)) reserved.0)
      refl room

abbrev stranded : InFlightMessage
stranded = record { message = message_of "m1"; consumer_id = "alice"; delivered_at = 7 }

-- Its session has gone, and its message is still in flight.
abbrev abandoned : QueueRuntime
abandoned = record (new_runtime small_config "default" []) {
  in_flight_manager = Inflight.add new_manager "token" (message_of "m1") "alice" 7;
}

abandoned_lem :
    (abandoned.closed ≡ false)
    × (lookup "alice" abandoned.consumer_sessions ≡ none)
    × (Inflight.get abandoned.in_flight_manager "token" ≡ some stranded)
    × ((list_wal.append [] (acknowledged_record abandoned stranded)).1 ≡ true)
unfolding new_runtime set_token_hooks new_queue_runtime Inflight.add Inflight.get new_manager lookup
    insert list_wal
abandoned_lem = (refl, refl, refl, refl)

resubscribe-Negative_example :
    let q' =
      (Produce.ack
        (subscribe abandoned (new_consumer_session 2 "alice")).0
        empty_shared
        "token").0 in
    (sess : ConsumerSession) × (lookup "alice" q'.consumer_sessions ≡ some sess)
    × (sess.unacked_count ≡ pos 0 -ℤ pos 1)
    × (is_eligible sess (pos 0) ≡ true)
resubscribe-Negative_example =
    resubscribe-Negative abandoned empty_shared "alice" "token" 2 stranded abandoned_lem.0
      abandoned_lem.1 abandoned_lem.2 refl abandoned_lem.3
