-- ===== src/Engine/QueueRuntime/Produce.antt =====
-- queue_runtime.go: Publish and Ack.
use dsend.Base.{
  ℕ, ◌+◌, ℤ, eq_ℤ, String, true, false, not, ◌&&◌, Option, none, some, if◌then◌else◌, if_cases,
  Option-cases, inl, inr, ◌≡◌, refl,
}
use dsend.Model.{Message, InFlightMessage, Record, published, acknowledged}
use dsend.Queue.RingBuffer as Ring
use dsend.Inflight
use dsend.Storage.{Wal}
use dsend.Engine.{err_broker_closed, err_invalid_ack_token, err_wal_append, Shared}
use dsend.Engine.QueueRuntime.{
  QueueRuntime, Outcome, message_record, stamp, call_hook, release_slot,
}

-- the record that Publish writes
abbrev pub published_record : QueueRuntime → Message → Record
published_record q message = record (message_record q message) { type = published }

-- the runtime after the record is written
unfoldable pub pushed : QueueRuntime → Message → QueueRuntime
pushed q message = record q {
  queue = Ring.push q.queue message;
  produced_count = q.produced_count + 1;
  notify_distributor = true;
}

-- the record that Ack writes
abbrev pub acknowledged_record : QueueRuntime → InFlightMessage → Record
acknowledged_record q item = record (message_record q item.message) { type = acknowledged }

-- the runtime after the record is written
unfoldable pub acked : QueueRuntime → String → InFlightMessage → QueueRuntime
acked q token item = record q {
  in_flight_manager = (Inflight.remove q.in_flight_manager token).1;
  acked_count = q.acked_count + 1;
  consumer_sessions = release_slot item.consumer_id q.consumer_sessions;
  notify_distributor = true;
}

module _ {W : Type 0} ⦃wal : Wal W⦄ where
  unfoldable pub log_and_push : QueueRuntime → Shared W → Message → Outcome W
  log_and_push q s message =
      let (w, ok) = wal.append s.wal (published_record q message) in
      if ok
      then (pushed q message, record s { wal = w }, none)
      else (q, record s { wal = w }, some err_wal_append)

  -- Publish. `none` means that the caller waits for room, with the lock released and nothing changed.
  unfoldable pub publish : QueueRuntime → Shared W → Message → ℤ → String → ℕ → Option (Outcome W)
  unfolding log_and_push stamp
  publish q s message ttl fresh_id now =
      if not q.closed && eq_ℤ (Ring.size q.queue) (Ring.capacity q.queue)
      then none
      else if q.closed
      then some (q, s, some err_broker_closed)
      else some (log_and_push q s (stamp message ttl fresh_id now))

  unfoldable pub log_and_remove : QueueRuntime → Shared W → String → InFlightMessage → Outcome W
  log_and_remove q s token item =
      let (w, ok) = wal.append s.wal (acknowledged_record q item) in
      if ok
      then (acked q token item, call_hook q.remove_token token (record s { wal = w }), none)
      else (q, record s { wal = w }, some err_wal_append)

  -- Ack
  unfoldable pub ack : QueueRuntime → Shared W → String → Outcome W
  unfolding log_and_remove
  ack q s token = elim (Inflight.get q.in_flight_manager token) [
    | none ↦ (q, s, some err_invalid_ack_token)
    | some item ↦ log_and_remove q s token item
  ]

  -- Ack of the runtime, when the log takes the record.
  pub acked_lem :
      (q : QueueRuntime) (s : Shared W) (token : String) (item : InFlightMessage)
      → Inflight.get q.in_flight_manager token ≡ some item
      → (wal.append s.wal (acknowledged_record q item)).1 ≡ true
      → ack q s token ≡ (
        acked q token item,
        call_hook q.remove_token token
            (record s { wal = (wal.append s.wal (acknowledged_record q item)).0 }),
        none,
      )
  unfolding ack log_and_remove
  acked_lem q s token item here logged = rw (here, logged, ack) refl

  -- The cases of the two methods, to prove a statement about their outcome.
  module _ {ℓ} (P : Outcome W → Type ℓ) (q : QueueRuntime) (s : Shared W) where
    pub log_and_push_cases :
        (message : Message)
        → let (w, ok) = wal.append s.wal (published_record q message) in
          (ok ≡ true → P (pushed q message, record s { wal = w }, none))
          → (ok ≡ false → P (q, record s { wal = w }, some err_wal_append))
          → P (log_and_push q s message)
    unfolding log_and_push
    log_and_push_cases message f g = if_cases P _ f g

    pub ack_cases :
        (token : String)
        → (Inflight.get q.in_flight_manager token ≡ none → P (q, s, some err_invalid_ack_token))
        → ((item : InFlightMessage)
            → Inflight.get q.in_flight_manager token ≡ some item
            → let (w, ok) = wal.append s.wal (acknowledged_record q item) in
              ok ≡ true
              → P (acked q token item, call_hook q.remove_token token (record s { wal = w }), none))
        → ((item : InFlightMessage)
            → Inflight.get q.in_flight_manager token ≡ some item
            → let (w, ok) = wal.append s.wal (acknowledged_record q item) in
              ok ≡ false → P (q, record s { wal = w }, some err_wal_append))
        → P (ack q s token)
    unfolding ack
    ack_cases token unknown f g = elim (Option-cases (Inflight.get q.in_flight_manager token)) [
      | inl e ↦ rw (e, ack) (unknown e)
      | inr (item, e) ↦ rw (e, ack) (if_cases P _ (f item e) (g item e))
    ]
