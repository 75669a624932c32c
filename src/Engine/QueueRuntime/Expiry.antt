-- ===== src/Engine/QueueRuntime/Expiry.antt =====
-- deadLetterExpiredMessages as a loop that ends by its own test, and what it says of reserveDelivery.
use dsend.Base.{
  ℕ, zero, suc, ◌+◌, ◌≤◌, pos, ltb_ℤ, eq_ℤ, nat_eq, String, Bool, true, false, not, ◌&&◌, ◌||◌,
  Option, none, some, List, [], ◌∷◌, ◌++◌, ◌≡◌, refl, sym, ap, subst, ◌∙◌, arith, length,
  append_assoc, append-nil, if_cases,
}
use mathlib.Core.Option.{some-injective}
use dsend.Model.{Message, Delivery}
use dsend.Queue.RingBuffer as Ring
use dsend.Queue.RingBuffer.Contents.{contents, pop_lem, size_positive, size_zero, length-contents}
use dsend.Queue.Dlq as Dlq
use dsend.Session.{ConsumerSession}
use dsend.Storage.{Wal}
use dsend.Engine.{Shared}
use dsend.Engine.QueueRuntime.{QueueRuntime, is_expired, next_session}
use dsend.Engine.QueueRuntime.Deliver.{
  dead_letter_rounds, dead_letter_expired_messages, head_dropped, reserve_for, hand_out, handed_out,
  reserve_live, reserve_delivery,
}
use dsend.Engine.QueueRuntime.Cases.{Turn, Reservation, dead_letter_rounds_cases}
use dsend.Engine.QueueRuntime.Invariant.{Inv, head_dropped-Inv}
use dsend.Engine.QueueRuntime.Balance.{positive, dead_letter_rounds-Inv, queue-next_session}

counted-next_session :
    (q : QueueRuntime) → (next_session q).0.deadlettered_count ≡ q.deadlettered_count
unfolding next_session
counted-next_session q =
    if_cases
      (λ (r : QueueRuntime × Option ConsumerSession). r.0.deadlettered_count ≡ q.deadlettered_count)
      (nat_eq (length q.consumer_order) 0) (λ _. refl) (λ _. refl)

module _ (clock : ℕ → ℕ) where
  -- The test of the loop has failed at a reading of the clock: the queue is empty, or its oldest message
  -- has not expired.
  abbrev pub HasStopped : ℕ → QueueRuntime → Type 0
  HasStopped i q =
      (ltb_ℤ (pos 0) (Ring.size q.queue) && is_expired (Ring.peek q.queue) (clock i)) ≡ false

  later : (i j : ℕ) (q : QueueRuntime) → i ≡ j → HasStopped i q → HasStopped j q
  later i j q = subst (λ k. HasStopped k q)

  -- Each message had expired at a reading of the clock of its own, those after the i-th one by one.
  unfoldable pub ExpiredFrom : ℕ → List Message → Type 0
  ExpiredFrom i [] = Unit
  ExpiredFrom i (m ∷ messages) = (is_expired m (clock i) ≡ true) × ExpiredFrom (i + 1) messages

  -- The messages that the loop has moved from its i-th round on, each expired at the reading of the clock
  -- in its round; the round behind them is the one in which the test fails.
  pub record Moves (i : ℕ) (q : QueueRuntime) {W : Type 0} (o : Turn W) : Type 0 where
    pub moved : List Message
    pub queued : contents q.queue ≡ moved ++ contents o.0.queue
    pub dead : o.0.dead_letter_queue.messages ≡ q.dead_letter_queue.messages ++ moved
    pub counted : o.0.deadlettered_count ≡ q.deadlettered_count + length moved
    pub expired : ExpiredFrom i moved
    pub stopped : o.2 ≡ true → HasStopped (i + length moved) o.0

  head_live :
      {q : QueueRuntime} (v : Inv q) (i : ℕ)
      → ltb_ℤ (pos 0) (Ring.size q.queue) ≡ true
      → (ltb_ℤ (pos 0) (Ring.size q.queue) && is_expired (Ring.peek q.queue) (clock i)) ≡ false
      → is_expired (Ring.pop q.queue).0 (clock i) ≡ false
  head_live {q} v i some_message stopped =
      let (_, _, peeked, _) = pop_lem v.ring (positive v true (rw some_message refl)) in
      rw (← peeked) (rw some_message at stopped)

  module _ {W : Type 0} ⦃wal : Wal W⦄ where
    unmoved :
        (i : ℕ) (q : QueueRuntime) (s : Shared W) (ok : Bool)
        → (ok ≡ true → HasStopped i q)
        → Moves i q (q, s, ok)
    unfolding ExpiredFrom
    unmoved i q s ok stop = record {
      moved = [];
      counted = omega arith;
      queued = refl;
      dead = sym (append-nil q.dead_letter_queue.messages);
      expired = tt;
      stopped = λ e. later i (i + 0) q (omega arith) (stop e);
    }

    one_more :
        {q : QueueRuntime} (o : Turn W) (i : ℕ)
        → Inv q
        → (ltb_ℤ (pos 0) (Ring.size q.queue) && is_expired (Ring.peek q.queue) (clock i)) ≡ true
        → Moves (i + 1) (head_dropped q) o
        → Moves i q o
    unfolding head_dropped Dlq.push ExpiredFrom
    one_more {q} o i v more rest =
        let (_, popped, peeked, _) = pop_lem v.ring (positive v _ more) in
        record {
          moved = Ring.peek q.queue ∷ rest.moved;
          queued =
              popped
              ∙ ap (λ m. m ∷ contents (Ring.pop q.queue).1) (sym peeked)
              ∙ ap (λ ms. Ring.peek q.queue ∷ ms) rest.queued;
          dead =
              rest.dead
              ∙ append_assoc q.dead_letter_queue.messages (Ring.peek q.queue ∷ []) rest.moved;
          counted = omega (arith, rest.counted);
          expired = (ground (arith, more), rest.expired);
          stopped = λ ok. later _ _ o.0 (omega arith) (rest.stopped ok);
        }

    rounds-Moves :
        (rounds : ℕ) (i : ℕ) {q : QueueRuntime} (s : Shared W)
        → Inv q
        → length (contents q.queue) ≤ rounds
        → Moves i q (dead_letter_rounds rounds clock i q s)
    unfolding dead_letter_rounds head_dropped
    rounds-Moves zero i {q} s v enough =
        unmoved i q s true (λ _. ground (arith, size_positive v.ring, enough))
    rounds-Moves (suc rounds) i {q} s v enough =
        dead_letter_rounds_cases q s (Moves i q) rounds clock i
          (λ stop. unmoved i q s true (λ _. stop)) (λ more failed. unmoved i q _ false (λ e. cc e))
          (λ more ok.
            let (_, popped, _, _) = pop_lem v.ring (positive v _ more) in
            one_more _ i v more (
              rounds-Moves rounds (i + 1) _ (head_dropped-Inv v (positive v _ more))
                (omega (arith, enough, ap length popped))))

    -- deadLetterExpiredMessages in a runtime that keeps the invariant, with any reading of the clock in
    -- each round: it moves a part of the queue, from its front, to the end of the dead letter queue, in
    -- its order, the n-th of them expired at the n-th reading of the clock, and counts them; and unless Append
    -- fails, it ends because at the next reading the queue is empty or its oldest message has not expired.
    pub dead_letter_expired_messages-Moves :
        {q : QueueRuntime} (s : Shared W)
        → Inv q
        → Moves 0 q (dead_letter_expired_messages q s clock)
    unfolding dead_letter_expired_messages Ring.size
    dead_letter_expired_messages-Moves {q} s v =
        rounds-Moves _ 0 s v (omega (arith, length-contents q.queue))

    -- What was reserved had not expired at a reading of the clock, after so many messages were dropped.
    abbrev IsLive : QueueRuntime → ℕ → Reservation W → Type 0
    IsLive q k o =
        (sess : ConsumerSession) (delivery : Delivery)
        → o.2 ≡ some (sess, delivery)
        → (o.0.deadlettered_count ≡ q.deadlettered_count + k)
          × (is_expired delivery.message (clock k) ≡ false)

    reserve_for-IsLive :
        (q : QueueRuntime) (r : QueueRuntime × Option ConsumerSession) (s : Shared W)
        (token : String) (now k : ℕ)
        → r.0.deadlettered_count ≡ q.deadlettered_count + k
        → is_expired (Ring.pop r.0.queue).0 (clock k) ≡ false
        → IsLive q k (reserve_for r s token now)
    unfolding reserve_for hand_out handed_out
    reserve_for-IsLive q (r, none) s token now k counted h sess delivery e = cc
    reserve_for-IsLive q (r, some chosen) s token now k counted h sess delivery e = (
      counted,
      subst (λ (found : ConsumerSession × Delivery). is_expired found.1.message (clock k) ≡ false)
          (some-injective _ (sess, delivery) e) h,
    )

    reserve_live-IsLive :
        (q : QueueRuntime) {q' : QueueRuntime} {s : Shared W} {ok : Bool} (token : String) (now : ℕ)
        → Inv q'
        → (m : Moves 0 q (q', s, ok))
        → IsLive q (length m.moved) (reserve_live (q', s, ok) token now)
    unfolding reserve_live
    reserve_live-IsLive q {q'} {s} {ok} token now v m =
        if_cases (IsLive q (length m.moved))
          (not ok || (eq_ℤ (Ring.size q'.queue) (pos 0) || nat_eq (length q'.consumer_sessions) 0))
          (λ _ sess delivery e. cc e)
          (λ go.
            reserve_for-IsLive q (next_session q') s token now (length m.moved)
              (counted-next_session q' ∙ m.counted)
              (rw (queue-next_session q') (
                head_live v (length m.moved)
                  (ground (arith, go, size_zero v.ring, size_positive v.ring))
                  (later _ (length m.moved) q' (omega arith) (m.stopped (ground (arith, go)))))))

    -- reserveDelivery in a runtime that keeps the invariant: if it hands out a message, then it has first
    -- dropped some number of expired messages, and the message that it hands out had not expired at the
    -- reading of the clock after theirs, the last one.
    pub reserve_delivery-IsLive :
        {q : QueueRuntime} (s : Shared W) (token : String) (now : ℕ) (sess : ConsumerSession)
        (delivery : Delivery)
        → Inv q
        → let o = reserve_delivery q s clock token now in
          o.2 ≡ some (sess, delivery)
          → (dropped : ℕ) × (o.0.deadlettered_count ≡ q.deadlettered_count + dropped)
            × (is_expired delivery.message (clock dropped) ≡ false)
    unfolding reserve_delivery dead_letter_expired_messages
    reserve_delivery-IsLive {q} s token now sess delivery v e =
        let m = dead_letter_expired_messages-Moves s v in
        let (counted, live) =
          reserve_live-IsLive q token now (dead_letter_rounds-Inv _ clock 0 s v) m sess delivery
            e in
        (length m.moved, counted, live)
