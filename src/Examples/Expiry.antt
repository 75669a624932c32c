-- ===== src/Examples/Expiry.antt =====
-- Messages that expire.
use dsend.Base.{ℕ, ◌+◌, ◌+ℤ◌, ◌-ℤ◌, false, some, [], ◌∷◌, ◌≡◌, refl, arith, lookup, insert}
use dsend.Model.{Delivery}
use dsend.Queue.RingBuffer as Ring
use dsend.Inflight
use dsend.Session.{is_eligible}
use dsend.Engine.QueueRuntime.{
  QueueRuntime, new_queue_runtime, subscribe, stamp, next_session, eligible_at, is_expired,
  scan_sessions,
}
use dsend.Engine.QueueRuntime.Produce.{publish, pushed, log_and_push}
use dsend.Engine.QueueRuntime.Deliver.{
  reserve_delivery, reserve_live, dead_letter_expired_messages, dead_letter_rounds,
  dead_letter_head, hand_out, handed_out, head_dropped, reserve_for,
}
use dsend.Engine.QueueRuntime.Recovery.{restarted, restarted_lem}
use dsend.Engine.QueueRuntime.Steps.{Reach-Sound}
use dsend.Engine.QueueRuntime.Expiry.{
  Moves, dead_letter_expired_messages-Moves, reserve_delivery-IsLive,
}
use dsend.Examples.{list_wal, list_wal-IsWal, message_of, small_config, empty_shared, alice}
use dsend.Examples.Engine.{started-Sound, after_subscribing, subscribing}

-- The first message has expired.
abbrev stale : QueueRuntime
stale =
    restarted "orders" small_config
      (record (message_of "old") { expiry_at = some 3 } ∷ message_of "new" ∷ [])

dead_letter_expired_messages-Moves_example :
    Moves (λ _. 5) 0 stale (dead_letter_expired_messages stale empty_shared (λ _. 5))
dead_letter_expired_messages-Moves_example =
    dead_letter_expired_messages-Moves (λ _. 5) empty_shared
      (restarted_lem "orders" small_config
        (record (message_of "old") { expiry_at = some 3 } ∷ message_of "new" ∷ []) (omega arith)).0

abbrev delivery : Delivery
delivery = record {
  message = record (message_of "m1") { timestamp = 5 };
  ack_token = "token";
  consumer_id = "alice";
}

reserved :
    (reserve_delivery after_subscribing.0 after_subscribing.1 (λ _. 6) "token" 7).2
    ≡ some (alice, delivery)
unfolding Inflight.get lookup reserve_delivery reserve_live dead_letter_expired_messages
    dead_letter_rounds Ring.size subscribe publish new_queue_runtime Ring.new_ring_buffer_queue
    Ring.capacity list_wal pushed Ring.push ◌+ℤ◌ ◌-ℤ◌ insert dead_letter_head hand_out handed_out
    head_dropped reserve_for log_and_push eligible_at is_expired next_session scan_sessions stamp
    Inflight.add Inflight.new_manager Ring.peek Ring.pop is_eligible
reserved = refl

reserve_delivery-IsLive_example :
    let o = reserve_delivery after_subscribing.0 after_subscribing.1 (λ _. 6) "token" 7 in
    (dropped : ℕ) × (o.0.deadlettered_count ≡ after_subscribing.0.deadlettered_count + dropped)
    × (is_expired delivery.message 6 ≡ false)
reserve_delivery-IsLive_example =
    reserve_delivery-IsLive (λ _. 6) after_subscribing.1 "token" 7 alice delivery
      (Reach-Sound list_wal-IsWal started-Sound subscribing).inv reserved
