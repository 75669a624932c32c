-- ===== src/Engine/QueueRuntime/Redelivery.antt =====
-- queue_runtime.go: processExpiredMessages, which puts back or gives up the deliveries that were not
-- acknowledged in time.
use dsend.Base.{ℕ, ◌+◌, pos, ◌+ℤ◌, leb_ℤ, eq_ℤ, String, true, List, [], ◌∷◌, if◌then◌else◌}
use dsend.Model.{Message, Delivery, Record, requeued}
use dsend.Queue.RingBuffer as Ring
use dsend.Queue.Dlq
use dsend.Inflight
use dsend.Storage.{Wal}
use dsend.Engine.{Shared}
use dsend.Engine.QueueRuntime.Deliver.{dead_lettered_record}
use dsend.Engine.QueueRuntime.{QueueRuntime, message_record, call_hook, release_slot}

-- what both branches do with the delivery's token and session
settle : QueueRuntime → Delivery → QueueRuntime
settle q item = record q {
  in_flight_manager = (Inflight.remove q.in_flight_manager item.ack_token).1;
  consumer_sessions = release_slot item.consumer_id q.consumer_sessions;
}

-- the runtime after a message has used up its retries
unfoldable pub given_up : QueueRuntime → Delivery → QueueRuntime
unfolding settle
given_up q item = record (settle q item) {
  dead_letter_queue = Dlq.push q.dead_letter_queue item.message;
  deadlettered_count = q.deadlettered_count + 1;
}

-- the message that is put back, with one more retry
unfoldable pub retried : Message → Message
retried message = record message { retry = message.retry +ℤ pos 1 }

-- the runtime after it has been put back
unfoldable pub put_back : QueueRuntime → Delivery → QueueRuntime
unfolding settle retried
put_back q item = record (settle q item) {
  queue = Ring.push q.queue (retried item.message);
  redelivered_count = q.redelivered_count + 1;
  notify_distributor = true;
}

abbrev pub requeued_record : QueueRuntime → Delivery → Record
requeued_record q item = record (message_record q (retried item.message)) { type = requeued }

module _ {W : Type 0} ⦃wal : Wal W⦄ where
  unfoldable pub give_up : QueueRuntime → Shared W → Delivery → QueueRuntime × Shared W
  give_up q s item =
      let (w, ok) = wal.append s.wal (dead_lettered_record q item.message) in
      if ok
      then (given_up q item, call_hook q.remove_token item.ack_token (record s { wal = w }))
      else (q, record s { wal = w })

  unfoldable pub requeue : QueueRuntime → Shared W → Delivery → QueueRuntime × Shared W
  requeue q s item =
      let (w, ok) = wal.append s.wal (requeued_record q item) in
      if ok
      then (put_back q item, call_hook q.remove_token item.ack_token (record s { wal = w }))
      else (q, record s { wal = w })

  -- the body of the loop
  unfoldable pub process_item : QueueRuntime → Shared W → Delivery → QueueRuntime × Shared W
  process_item q s item =
      if eq_ℤ (Ring.size q.queue) (Ring.capacity q.queue)
      then (q, s)
      else if leb_ℤ q.config.max_retries item.message.retry
      then give_up q s item
      else requeue q s item

  unfoldable pub process_items : QueueRuntime → Shared W → List Delivery → QueueRuntime × Shared W
  process_items q s [] = (q, s)
  process_items q s (item ∷ items) =
      let (q', s') = process_item q s item in process_items q' s' items

  -- processExpiredMessages. `order` is the order in which the manager's map was ranged over.
  unfoldable pub process_expired_messages :
      QueueRuntime
      → Shared W
      → (String → ℕ)
      → (List Delivery → List Delivery)
      → QueueRuntime × Shared W
  process_expired_messages q s now order =
      if q.closed
      then (q, s)
      else process_items q s (order (Inflight.expired q.in_flight_manager q.config.ack_timeout now))
