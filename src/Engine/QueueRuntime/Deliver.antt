-- ===== src/Engine/QueueRuntime/Deliver.antt =====
-- queue_runtime.go: the dead-lettering of expired messages, the reservation of a delivery, what the
-- distributor then does with it, and the receipt from a session's channel.
use dsend.Base.{
  ℕ, zero, suc, ◌+◌, pos, pos_part, ◌+ℤ◌, ltb_ℤ, eq_ℤ, String, Bool, true, false, not, ◌&&◌, ◌||◌,
  Option, none, some, [], ◌∷◌, ◌++◌, length, Map, lookup, insert, nat_eq, if◌then◌else◌,
}
use dsend.Model.{Message, Delivery, Record, zero_record, dead_lettered}
use dsend.Queue.RingBuffer as Ring
use dsend.Queue.Dlq
use dsend.Inflight
use dsend.Session.{ConsumerSession, has_room}
use dsend.Storage.{Wal}
use dsend.Engine.{Shared}
use dsend.Engine.QueueRuntime.{QueueRuntime, is_expired, call_hook, release_slot, next_session}

-- `session.UnackedCount++` for the session that was chosen
unfoldable pub take_slot : ConsumerSession → Map ConsumerSession → Map ConsumerSession
take_slot sess sessions =
    insert sess.id (record sess { unacked_count = sess.unacked_count +ℤ pos 1 }) sessions

-- the record of a message that goes to the dead letter queue
abbrev pub dead_lettered_record : QueueRuntime → Message → Record
dead_lettered_record q message = record zero_record {
  type = dead_lettered;
  queue = q.name;
  message_id = message.id;
}

-- the runtime after the oldest message has gone there
unfoldable pub head_dropped : QueueRuntime → QueueRuntime
head_dropped q = record q {
  queue = (Ring.pop q.queue).1;
  dead_letter_queue = Dlq.push q.dead_letter_queue (Ring.peek q.queue);
  deadlettered_count = q.deadlettered_count + 1;
}

-- the runtime after the oldest message has been reserved for a session
unfoldable pub handed_out : QueueRuntime → ConsumerSession → String → ℕ → QueueRuntime
unfolding take_slot
handed_out q sess token now = record q {
  queue = (Ring.pop q.queue).1;
  in_flight_manager = Inflight.add q.in_flight_manager token (Ring.pop q.queue).0 sess.id now;
  consumer_sessions = take_slot sess q.consumer_sessions;
}

module _ {W : Type 0} ⦃wal : Wal W⦄ where
  -- What the loop of deadLetterExpiredMessages does with a message that has expired.
  unfoldable pub dead_letter_head : QueueRuntime → Shared W → QueueRuntime × Shared W × Bool
  dead_letter_head q s =
      let (w, ok) = wal.append s.wal (dead_lettered_record q (Ring.peek q.queue)) in
      if ok then (head_dropped q, record s { wal = w }, true) else (q, record s { wal = w }, false)

  -- deadLetterExpiredMessages, over at most `rounds` messages; `clock i` is the reading of the clock
  -- in the i-th round. The flag is false if `Append` failed.
  unfoldable pub dead_letter_rounds :
      ℕ → (ℕ → ℕ) → ℕ → QueueRuntime → Shared W → QueueRuntime × Shared W × Bool
  dead_letter_rounds zero clock i q s = (q, s, true)
  dead_letter_rounds (suc rounds) clock i q s =
      let (q', s', ok) = dead_letter_head q s in
      let rest = dead_letter_rounds rounds clock (i + 1) q' s' in
      if ltb_ℤ (pos 0) (Ring.size q.queue) && is_expired (Ring.peek q.queue) (clock i)
      then (if ok then rest else (q', s', false))
      else (q, s, true)

  -- Each round pops one message, so the number of messages is rounds enough.
  unfoldable pub dead_letter_expired_messages :
      QueueRuntime → Shared W → (ℕ → ℕ) → QueueRuntime × Shared W × Bool
  dead_letter_expired_messages q s clock =
      dead_letter_rounds (pos_part (Ring.size q.queue)) clock 0 q s

  -- The end of reserveDelivery, for the session that nextSession returned.
  unfoldable pub hand_out :
      QueueRuntime
      → Shared W
      → ConsumerSession
      → String
      → ℕ
      → QueueRuntime × Shared W × Option (ConsumerSession × Delivery)
  hand_out q s sess token now = (
    handed_out q sess token now,
    call_hook q.register_token token s,
    some
        (sess, record { message = (Ring.pop q.queue).0; ack_token = token; consumer_id = sess.id }),
  )

  unfoldable pub reserve_for :
      QueueRuntime × Option ConsumerSession
      → Shared W
      → String
      → ℕ
      → QueueRuntime × Shared W × Option (ConsumerSession × Delivery)
  reserve_for (q, none) s token now = (q, s, none)
  reserve_for (q, some sess) s token now = hand_out q s sess token now

  unfoldable pub reserve_live :
      QueueRuntime × Shared W × Bool
      → String
      → ℕ
      → QueueRuntime × Shared W × Option (ConsumerSession × Delivery)
  reserve_live (q, s, ok) token now =
      if not ok || (eq_ℤ (Ring.size q.queue) (pos 0) || nat_eq (length q.consumer_sessions) 0)
      then (q, s, none)
      else reserve_for (next_session q) s token now

  -- reserveDelivery, with the token from `uuid.NewString` and the time that the manager notes.
  unfoldable pub reserve_delivery :
      QueueRuntime
      → Shared W
      → (ℕ → ℕ)
      → String
      → ℕ
      → QueueRuntime × Shared W × Option (ConsumerSession × Delivery)
  reserve_delivery q s clock token now =
      reserve_live (dead_letter_expired_messages q s clock) token now

module _ {W : Type 0} where
  -- cancelReservation
  unfoldable pub cancel_reservation : QueueRuntime → Shared W → Delivery → QueueRuntime × Shared W
  cancel_reservation q s delivery =
      let (found, manager) = Inflight.remove q.in_flight_manager delivery.ack_token in
      (
        record q {
          in_flight_manager = manager;
          consumer_sessions = elim found [
            | none ↦ q.consumer_sessions
            | some _ ↦ release_slot delivery.consumer_id q.consumer_sessions
          ];
          queue = Ring.push q.queue delivery.message;
          notify_distributor = true;
        },
        call_hook q.remove_token delivery.ack_token s,
      )

-- The send of the distributor on the session's channel. The sender holds a pointer: it reaches the
-- session of the map only if that is the same object.
unfoldable pub send_delivery : QueueRuntime → ConsumerSession → Delivery → QueueRuntime
send_delivery q sess delivery = elim (lookup sess.id q.consumer_sessions) [
  | none ↦ q
  | some current ↦
      if nat_eq current.address sess.address
      then record q {
        consumer_sessions =
            insert sess.id (record current { deliveries = current.deliveries ++ delivery ∷ [] })
              q.consumer_sessions;
      }
      else q
]

-- A receive on `Deliveries` of a session, by a holder of the pointer `address`, if the map has that
-- object: the oldest delivery, if there is one.
unfoldable pub take_delivery : QueueRuntime → String → ℕ → QueueRuntime × Option Delivery
take_delivery q id address = elim (lookup id q.consumer_sessions) [
  | none ↦ (q, none)
  | some current ↦
      if nat_eq current.address address
      then elim current.deliveries [
        | [] ↦ (q, none)
        | delivery ∷ rest ↦ (
          record q {
            consumer_sessions =
                insert id (record current { deliveries = rest }) q.consumer_sessions;
          },
          some delivery,
        )
      ]
      else (q, none)
]

module _ {W : Type 0} ⦃wal : Wal W⦄ where
  -- The `select` of RunDistributor on a session as it is now. If both channels are ready Go picks one
  -- at random: `pick` is its choice.
  unfoldable pub dispatch :
      Bool → QueueRuntime → Shared W → ConsumerSession → Delivery → QueueRuntime × Shared W
  dispatch pick q s sess delivery =
      if sess.closed && (pick || not (has_room sess))
      then cancel_reservation q s delivery
      else if has_room sess
      then (send_delivery q sess delivery, s)
      else cancel_reservation q s delivery
