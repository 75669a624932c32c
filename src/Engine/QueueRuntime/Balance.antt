-- ===== src/Engine/QueueRuntime/Balance.antt =====
-- Every method but cancelReservation keeps the invariant of the queue runtime, whatever the log, the
-- clock and the manager's map order do.
use dsend.Base.{
  ℕ, zero, suc, ◌+◌, ◌<◌, ℤ, pos, eq_ℤ, ltb_ℤ, nat_eq, String, Bool, true, false, not, ◌&&◌, Option,
  none, some, ◌≡◌, refl, arith, length, if_cases,
}
use dsend.Model.{Message}
use dsend.Queue.RingBuffer as Ring
use dsend.Queue.RingBuffer.Contents.{contents, size_full, size_zero, size_positive, length-contents}
use dsend.Inflight
use dsend.Inflight.{Manager}
use dsend.Session.{ConsumerSession}
use dsend.Storage.{Wal}
use dsend.Engine.{Shared}
use dsend.Engine.QueueRuntime.{QueueRuntime, Outcome, stamp, next_session}
use dsend.Engine.QueueRuntime.Produce.{publish, ack, log_and_push_cases, ack_cases}
use dsend.Engine.QueueRuntime.Deliver.{
  dead_letter_rounds, dead_letter_expired_messages, head_dropped, reserve_for, hand_out,
  reserve_live, reserve_delivery,
}
use dsend.Engine.QueueRuntime.Cases.{Turn, dead_letter_rounds_cases, reserve_live_cases}
use dsend.Engine.QueueRuntime.Invariant.{
  Inv, HasRoom, pushed-Inv, acked-Inv, head_dropped-Inv, handed_out-Inv,
}

-- The runtime after a call of Publish: as it was, while the call waits.
abbrev pub after_publish : {W : Type 0} → QueueRuntime → Option (Outcome W) → QueueRuntime
after_publish q none = q
after_publish q (some (q', s', e)) = q'

module _ {q : QueueRuntime} (v : Inv q) where
  pub not_full : eq_ℤ (Ring.size q.queue) (Ring.capacity q.queue) ≡ false → HasRoom q
  not_full h = ground (arith, size_full v.ring, v.ring.fits, length-contents q.queue)

  pub not_empty : eq_ℤ (Ring.size q.queue) (pos 0) ≡ false → 0 < length (contents q.queue)
  not_empty h = ground (arith, size_zero v.ring)

  pub positive :
      (b : Bool) → (ltb_ℤ (pos 0) (Ring.size q.queue) && b) ≡ true → 0 < length (contents q.queue)
  positive b h = ground (arith, size_positive v.ring)

module _ {W : Type 0} ⦃wal : Wal W⦄ where
  pub publish-Inv :
      {q : QueueRuntime} (s : Shared W) (message : Message) (ttl : ℤ) (fresh_id : String) (now : ℕ)
      → Inv q
      → Inv (after_publish q (publish q s message ttl fresh_id now))
  unfolding publish
  publish-Inv {q} s message ttl fresh_id now v =
      if_cases (λ (r : Option (Outcome W)). Inv (after_publish q r))
        (not q.closed && eq_ℤ (Ring.size q.queue) (Ring.capacity q.queue)) (λ _. v)
        (λ go.
          if_cases (λ (r : Option (Outcome W)). Inv (after_publish q r)) q.closed (λ _. v)
            (λ live.
              log_and_push_cases (λ r. Inv r.0) q s (stamp message ttl fresh_id now)
                (λ _. pushed-Inv v _ (not_full v (ground arith))) (λ _. v)))

  pub ack-Inv : {q : QueueRuntime} (s : Shared W) (token : String) → Inv q → Inv (ack q s token).0
  ack-Inv {q} s token v =
      ack_cases (λ r. Inv r.0) q s token (λ _. v) (λ item e _. acked-Inv v token item e)
        (λ _ _ _. v)

  pub dead_letter_rounds-Inv :
      (rounds : ℕ) (clock : ℕ → ℕ) (i : ℕ) {q : QueueRuntime} (s : Shared W)
      → Inv q
      → Inv (dead_letter_rounds rounds clock i q s).0
  unfolding dead_letter_rounds
  dead_letter_rounds-Inv zero clock i s v = v
  dead_letter_rounds-Inv (suc rounds) clock i {q} s v =
      dead_letter_rounds_cases q s (λ r. Inv r.0) rounds clock i (λ _. v) (λ _ _. v)
        (λ more _.
          dead_letter_rounds-Inv rounds clock (i + 1) _ (head_dropped-Inv v (positive v _ more)))

  pub in_flight-dead_letter_rounds :
      (rounds : ℕ) (clock : ℕ → ℕ) (i : ℕ) (q : QueueRuntime) (s : Shared W)
      → (dead_letter_rounds rounds clock i q s).0.in_flight_manager ≡ q.in_flight_manager
  unfolding dead_letter_rounds head_dropped
  in_flight-dead_letter_rounds zero clock i q s = refl
  in_flight-dead_letter_rounds (suc rounds) clock i q s =
      dead_letter_rounds_cases q s (λ r. r.0.in_flight_manager ≡ q.in_flight_manager) rounds clock i
        (λ _. refl) (λ _ _. refl) (λ _ _. in_flight-dead_letter_rounds rounds clock (i + 1) _ _)

  reserve_for-Inv :
      (r : QueueRuntime × Option ConsumerSession) (s : Shared W) (token : String) (now : ℕ)
      → Inv r.0
      → 0 < length (contents r.0.queue)
      → Inflight.get r.0.in_flight_manager token ≡ none
      → Inv (reserve_for r s token now).0
  unfolding reserve_for hand_out
  reserve_for-Inv (q, none) s token now v h fresh = v
  reserve_for-Inv (q, some sess) s token now v h fresh = handed_out-Inv v sess token now h fresh

-- nextSession moves the turn and nothing else.
module _ (q : QueueRuntime) where
  pub next_session-Inv : Inv q → Inv (next_session q).0
  unfolding next_session
  next_session-Inv v =
      if_cases (λ (r : QueueRuntime × Option ConsumerSession). Inv r.0)
        (nat_eq (length q.consumer_order) 0) (λ _. v)
        (λ _. record {
          ring = v.ring;
          flight = v.flight;
          balance = v.balance;
          dead_letters = v.dead_letters;
        })

  pub queue-next_session : (next_session q).0.queue ≡ q.queue
  unfolding next_session
  queue-next_session =
      if_cases (λ (r : QueueRuntime × Option ConsumerSession). r.0.queue ≡ q.queue)
        (nat_eq (length q.consumer_order) 0) (λ _. refl) (λ _. refl)

  pub name-next_session : (next_session q).0.name ≡ q.name
  unfolding next_session
  name-next_session =
      if_cases (λ (r : QueueRuntime × Option ConsumerSession). r.0.name ≡ q.name)
        (nat_eq (length q.consumer_order) 0) (λ _. refl) (λ _. refl)

  pub in_flight-next_session : (next_session q).0.in_flight_manager ≡ q.in_flight_manager
  unfolding next_session
  in_flight-next_session =
      if_cases
        (λ (r : QueueRuntime × Option ConsumerSession). r.0.in_flight_manager ≡ q.in_flight_manager)
        (nat_eq (length q.consumer_order) 0) (λ _. refl) (λ _. refl)

module _ {W : Type 0} ⦃wal : Wal W⦄ where
  reserve_live-Inv :
      (t : Turn W) (token : String) (now : ℕ)
      → Inv t.0
      → Inflight.get t.0.in_flight_manager token ≡ none
      → Inv (reserve_live t token now).0
  reserve_live-Inv (q, s, ok) token now v fresh =
      reserve_live_cases q s (λ r. Inv r.0) ok token now v
        (λ h.
          reserve_for-Inv (next_session q) s token now (next_session-Inv q v)
            (rw (queue-next_session q) (not_empty v h)) (rw (in_flight-next_session q) fresh))

  pub reserve_delivery-Inv :
      {q : QueueRuntime} (s : Shared W) (clock : ℕ → ℕ) (token : String) (now : ℕ)
      → Inv q
      → Inflight.get q.in_flight_manager token ≡ none
      → Inv (reserve_delivery q s clock token now).0
  unfolding reserve_delivery dead_letter_expired_messages
  reserve_delivery-Inv {q} s clock token now v fresh =
      reserve_live-Inv _ token now (dead_letter_rounds-Inv _ clock 0 s v)
        (rw (in_flight-dead_letter_rounds _ clock 0 q s) fresh)
