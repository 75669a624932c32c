-- ===== src/Engine/QueueRuntime/Cases.antt =====
-- The outcomes of the methods that write to the log or that loop, so that a statement about one is
-- proved of each outcome.
use dsend.Base.{
  ℕ, suc, ◌+◌, pos, ltb_ℤ, leb_ℤ, eq_ℤ, String, Bool, true, false, ◌&&◌, Option, none, ◌≡◌,
  if◌then◌else◌, if_cases, arith,
}
use dsend.Model.{Delivery}
use dsend.Queue.RingBuffer as Ring
use dsend.Session.{ConsumerSession}
use dsend.Storage.{Wal}
use dsend.Engine.{Shared}
use dsend.Engine.QueueRuntime.{QueueRuntime, is_expired, call_hook, next_session}
use dsend.Engine.QueueRuntime.Deliver.{
  dead_lettered_record, head_dropped, dead_letter_head, dead_letter_rounds, reserve_live,
  reserve_for,
}
use dsend.Engine.QueueRuntime.Redelivery.{
  given_up, put_back, requeued_record, give_up, requeue, process_item,
}

-- The state with a flag, and with a delivery.
abbrev pub Turn : Type 0 → Type 0
Turn W = QueueRuntime × Shared W × Bool

abbrev pub Reservation : Type 0 → Type 0
Reservation W = QueueRuntime × Shared W × Option (ConsumerSession × Delivery)

module _ {ℓ} {W : Type 0} ⦃wal : Wal W⦄ (q : QueueRuntime) (s : Shared W) where
  -- A round of deadLetterExpiredMessages stops, fails to log, or drops a message and goes on.
  pub dead_letter_rounds_cases :
      (P : Turn W → Type ℓ) (rounds : ℕ) (clock : ℕ → ℕ) (i : ℕ)
      → let (w, ok) = wal.append s.wal (dead_lettered_record q (Ring.peek q.queue)) in
        let more = ltb_ℤ (pos 0) (Ring.size q.queue) && is_expired (Ring.peek q.queue) (clock i) in
        (more ≡ false → P (q, s, true))
        → (more ≡ true → ok ≡ false → P (q, record s { wal = w }, false))
        → (more ≡ true
            → ok ≡ true
            → P (dead_letter_rounds rounds clock (i + 1) (head_dropped q) (record s { wal = w })))
        → P (dead_letter_rounds (suc rounds) clock i q s)
  unfolding dead_letter_rounds dead_letter_head
  dead_letter_rounds_cases P rounds clock i stop fail go =
      if_cases P _
        (λ more.
          if_cases
            (λ (h : Turn W).
              P (
                if h.2 then dead_letter_rounds rounds clock (i + 1) h.0 h.1 else (h.0, h.1, false)))
            (wal.append s.wal (dead_lettered_record q (Ring.peek q.queue))).1 (go more) (fail more))
        stop

  pub reserve_live_cases :
      (P : Reservation W → Type ℓ) (ok : Bool) (token : String) (now : ℕ)
      → P (q, s, none)
      → (eq_ℤ (Ring.size q.queue) (pos 0) ≡ false → P (reserve_for (next_session q) s token now))
      → P (reserve_live (q, s, ok) token now)
  unfolding reserve_live
  reserve_live_cases P ok token now stop go = if_cases P _ (λ _. stop) (λ h. go (ground arith))

  -- processExpiredMessages passes an item over, because the queue is full or the log fails, gives its
  -- message up, or puts it back.
  pub process_item_cases :
      (P : QueueRuntime × Shared W → Type ℓ) (item : Delivery)
      → let (dead, dead_ok) = wal.append s.wal (dead_lettered_record q item.message) in
        let (back, back_ok) = wal.append s.wal (requeued_record q item) in
        let full = eq_ℤ (Ring.size q.queue) (Ring.capacity q.queue) in
        let spent = leb_ℤ q.config.max_retries item.message.retry in
        (full ≡ true → P (q, s))
        → (full ≡ false
            → spent ≡ true
            → dead_ok ≡ true
            → P (
              given_up q item,
              call_hook q.remove_token item.ack_token (record s { wal = dead }),
            ))
        → (full ≡ false → spent ≡ true → dead_ok ≡ false → P (q, record s { wal = dead }))
        → (full ≡ false
            → spent ≡ false
            → back_ok ≡ true
            → P (
              put_back q item,
              call_hook q.remove_token item.ack_token (record s { wal = back }),
            ))
        → (full ≡ false → spent ≡ false → back_ok ≡ false → P (q, record s { wal = back }))
        → P (process_item q s item)
  unfolding process_item give_up requeue
  process_item_cases P item skip gave_up gave_up_failed back back_failed =
      if_cases P _ skip (λ room.
        if_cases P _ (λ h. if_cases P _ (gave_up room h) (gave_up_failed room h))
          (λ h. if_cases P _ (back room h) (back_failed room h)))
