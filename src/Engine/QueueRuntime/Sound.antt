-- ===== src/Engine/QueueRuntime/Sound.antt =====
-- The methods keep the runtime sound: its invariant holds, and the log stands for its live messages.
-- `Overflow` has cancelReservation.
use mathlib.Core.List.{Permᴰ}
use dsend.Base.{
  ℕ, zero, suc, ◌+◌, ℤ, String, true, false, not, ◌&&◌, Option, none, some, List, [], ◌∷◌, ◌++◌,
  ◌≡◌, refl, arith, length, ◌<◌, Mem, if_cases, eq_ℤ,
}
use dsend.Model.{Message, Delivery, Record}
use dsend.Queue.RingBuffer as Ring
use dsend.Queue.RingBuffer.Contents.{contents}
use dsend.Inflight
use dsend.Session.{ConsumerSession}
use dsend.Storage.{Wal, IsWal}
use dsend.Storage.Durable.{IsDurable, ids}
use dsend.Engine.{Shared, TokenHook}
use dsend.Engine.QueueRuntime.{QueueRuntime, Outcome, call_hook, stamp, next_session}
use dsend.Engine.QueueRuntime.Produce.{pushed, acked, publish, ack, log_and_push_cases, ack_cases}
use dsend.Engine.QueueRuntime.Deliver.{
  head_dropped, handed_out, dead_letter_rounds, dead_letter_expired_messages, reserve_for, hand_out,
  reserve_live, reserve_delivery,
}
use dsend.Engine.QueueRuntime.Redelivery.{
  given_up, put_back, process_item, process_items, process_expired_messages,
}
use dsend.Engine.QueueRuntime.Cases.{
  Turn, dead_letter_rounds_cases, reserve_live_cases, process_item_cases,
}
use dsend.Engine.QueueRuntime.Invariant.{
  Inv, pushed-Inv, acked-Inv, head_dropped-Inv, handed_out-Inv, given_up-Inv, put_back-Inv,
}
use dsend.Engine.QueueRuntime.Balance.{
  not_full, not_empty, positive, next_session-Inv, queue-next_session, name-next_session,
  in_flight-next_session, in_flight-dead_letter_rounds,
}
use dsend.Engine.QueueRuntime.Durable.{
  live, pushed-IsDurable, acked-IsDurable, head_dropped-IsDurable, handed_out-IsDurable,
  given_up-IsDurable, put_back-IsDurable,
}
use dsend.Engine.QueueRuntime.Tracks.{Tracks, remove-Tracks, expired-Tracks, Tracks-Permᴰ}

-- A runtime and what it shares.
abbrev pub State : Type 0 → Type 0
State W = QueueRuntime × Shared W

-- The state after a call of Publish: as it was, while the call waits.
abbrev pub after_publish : {W : Type 0} → State W → Option (Outcome W) → State W
after_publish t none = t
after_publish t (some (q, s, e)) = (q, s)

-- A token hook does not touch the log.
pub hook_wal :
    {W : Type 0} (hook : TokenHook) (token : String) (s : Shared W)
    → (call_hook hook token s).wal ≡ s.wal
hook_wal none token s = refl
hook_wal (some hook) token s = refl

module _ {W : Type 0} ⦃wal : Wal W⦄ (laws : IsWal wal) where
  pub record Sound (t : State W) : Type 0 where
    pub inv : Inv t.0
    pub durable : IsDurable (laws.log t.1.wal) t.0.name (live t.0)

  -- After a failed Append.
  unlogged :
      {q : QueueRuntime} {s : Shared W} (r : Record)
      → (wal.append s.wal r).1 ≡ false
      → Sound (q, s)
      → Sound (q, record s { wal = (wal.append s.wal r).0 })
  unlogged {q} {s} r failed t = record {
    inv = t.inv;
    durable = rw (laws.append_failed s.wal r failed) t.durable;
  }

  -- After a successful Append and a hook.
  logged :
      {q : QueueRuntime} {s : Shared W} (r : Record)
      → (wal.append s.wal r).1 ≡ true
      → Inv q
      → IsDurable (laws.log s.wal ++ r ∷ []) q.name (live q)
      → Sound (q, record s { wal = (wal.append s.wal r).0 })
  logged {q} {s} r done v d = record { inv = v; durable = rw (laws.append_ok s.wal r done) d }

  hooked :
      {q : QueueRuntime} {s : Shared W} (hook : TokenHook) (token : String)
      → Sound (q, s)
      → Sound (q, call_hook hook token s)
  hooked {q} {s} hook token t = record {
    inv = t.inv;
    durable = rw (hook_wal hook token s) t.durable;
  }

  pub publish-Sound :
      (q : QueueRuntime) (s : Shared W) (message : Message) (ttl : ℤ) (fresh_id : String) (now : ℕ)
      → Sound (q, s)
      → ¬ Mem (stamp message ttl fresh_id now).id (ids (live q))
      → Sound (after_publish (q, s) (publish q s message ttl fresh_id now))
  unfolding publish pushed
  publish-Sound q s message ttl fresh_id now t fresh =
      if_cases (λ (r : Option (Outcome W)). Sound (after_publish (q, s) r))
        (not q.closed && eq_ℤ (Ring.size q.queue) (Ring.capacity q.queue)) (λ _. t)
        (λ go.
          if_cases (λ (r : Option (Outcome W)). Sound (after_publish (q, s) r)) q.closed (λ _. t)
            (λ open_queue.
              let room = not_full t.inv (ground arith) in
              log_and_push_cases (λ r. Sound (r.0, r.1)) q s (stamp message ttl fresh_id now)
                (λ done.
                  logged _ done (pushed-Inv t.inv _ room)
                    (pushed-IsDurable t.inv t.durable _ room fresh))
                (λ failed. unlogged _ failed t)))

  pub ack-Sound :
      (q : QueueRuntime) (s : Shared W) (token : String)
      → Sound (q, s)
      → Sound ((ack q s token).0, (ack q s token).1)
  unfolding acked
  ack-Sound q s token t =
      ack_cases (λ r. Sound (r.0, r.1)) q s token (λ _. t)
        (λ item e done. hooked q.remove_token token (
          logged _ done (acked-Inv t.inv token item e)
            (acked-IsDurable t.inv t.durable token item e)))
        (λ item e failed. unlogged _ failed t)

  pub dead_letter_rounds-Sound :
      (rounds : ℕ) (clock : ℕ → ℕ) (i : ℕ) (q : QueueRuntime) (s : Shared W)
      → Sound (q, s)
      → Sound ((dead_letter_rounds rounds clock i q s).0, (dead_letter_rounds rounds clock i q s).1)
  unfolding dead_letter_rounds head_dropped
  dead_letter_rounds-Sound zero clock i q s t = t
  dead_letter_rounds-Sound (suc rounds) clock i q s t =
      dead_letter_rounds_cases q s (λ r. Sound (r.0, r.1)) rounds clock i (λ _. t)
        (λ _ failed. unlogged _ failed t)
        (λ more done.
          let some_message = positive t.inv _ more in
          dead_letter_rounds-Sound rounds clock (i + 1) _ _ (
            logged _ done (head_dropped-Inv t.inv some_message)
              (head_dropped-IsDurable t.inv t.durable some_message)))

  reserve_for-Sound :
      (r : QueueRuntime × Option ConsumerSession) (s : Shared W) (token : String) (now : ℕ)
      → Sound (r.0, s)
      → 0 < length (contents r.0.queue)
      → Inflight.get r.0.in_flight_manager token ≡ none
      → Sound ((reserve_for r s token now).0, (reserve_for r s token now).1)
  unfolding reserve_for hand_out handed_out
  reserve_for-Sound (q, none) s token now t h fresh = t
  reserve_for-Sound (q, some sess) s token now t h fresh = hooked q.register_token token (record {
    inv = handed_out-Inv t.inv sess token now h fresh;
    durable = handed_out-IsDurable t.inv t.durable sess token now h fresh;
  })

  next_session-Sound :
      (q : QueueRuntime) (s : Shared W) → Sound (q, s) → Sound ((next_session q).0, s)
  next_session-Sound q s t = record {
    inv = next_session-Inv q t.inv;
    durable = rw (queue-next_session q, in_flight-next_session q, name-next_session q) t.durable;
  }

  reserve_live-Sound :
      (r : Turn W) (token : String) (now : ℕ)
      → Sound (r.0, r.1)
      → Inflight.get r.0.in_flight_manager token ≡ none
      → Sound ((reserve_live r token now).0, (reserve_live r token now).1)
  reserve_live-Sound (q, s, ok) token now t fresh =
      reserve_live_cases q s (λ r. Sound (r.0, r.1)) ok token now t
        (λ h.
          reserve_for-Sound (next_session q) s token now (next_session-Sound q s t)
            (rw (queue-next_session q) (not_empty t.inv h)) (rw (in_flight-next_session q) fresh))

  pub reserve_delivery-Sound :
      (q : QueueRuntime) (s : Shared W) (clock : ℕ → ℕ) (token : String) (now : ℕ)
      → Sound (q, s)
      → Inflight.get q.in_flight_manager token ≡ none
      → Sound ((reserve_delivery q s clock token now).0, (reserve_delivery q s clock token now).1)
  unfolding reserve_delivery dead_letter_expired_messages
  reserve_delivery-Sound q s clock token now t fresh =
      reserve_live-Sound _ token now (dead_letter_rounds-Sound _ clock 0 q s t)
        (rw (in_flight-dead_letter_rounds _ clock 0 q s) fresh)

  -- Sound, with the deliveries that are still to be looked at.
  Going : List Delivery → State W → Type 0
  Going items r = Sound r × Tracks r.0.in_flight_manager items

  process_item-Going :
      (q : QueueRuntime) (s : Shared W) (item : Delivery) (items : List Delivery)
      → Sound (q, s)
      → Tracks q.in_flight_manager (item ∷ items)
      → Going items (process_item q s item)
  unfolding Going given_up put_back
  process_item-Going q s item items t ((entry, e, same, _), apart, rest) =
      process_item_cases q s (Going items) item (λ _. (t, rest))
        (λ _ _ done. (
          hooked q.remove_token item.ack_token (
              logged _ done (given_up-Inv t.inv item entry e)
                (given_up-IsDurable t.inv t.durable item entry e same)),
          left,
        ))
        (λ _ _ failed. (unlogged _ failed t, rest))
        (λ space _ done.
          let room = not_full t.inv space in
          (
            hooked q.remove_token item.ack_token (
                logged _ done (put_back-Inv t.inv item entry e room)
                  (put_back-IsDurable t.inv t.durable item entry e same room)),
            left,
          ))
        (λ _ _ failed. (unlogged _ failed t, rest))
    where
      left : Tracks (Inflight.remove q.in_flight_manager item.ack_token).1 items
      left = remove-Tracks q.in_flight_manager item.ack_token entry items t.inv.flight e apart rest

  process_items-Sound :
      (items : List Delivery) (q : QueueRuntime) (s : Shared W)
      → Sound (q, s)
      → Tracks q.in_flight_manager items
      → Sound (process_items q s items)
  unfolding process_items Going
  process_items-Sound [] q s t tr = t
  process_items-Sound (item ∷ items) q s t tr =
      let (t', tr') = process_item-Going q s item items t tr in process_items-Sound items _ _ t' tr'

  pub process_expired_messages-Sound :
      (q : QueueRuntime) (s : Shared W) (now : String → ℕ) (order : List Delivery → List Delivery)
      → ((items : List Delivery) → Permᴰ items (order items))
      → Sound (q, s)
      → Sound (process_expired_messages q s now order)
  unfolding process_expired_messages
  process_expired_messages-Sound q s now order shuffles t =
      if_cases Sound q.closed (λ _. t)
        (λ _. process_items-Sound _ q s t (
          Tracks-Permᴰ q.in_flight_manager (shuffles _)
            (expired-Tracks q.config.ack_timeout now q.in_flight_manager t.inv.flight)))
