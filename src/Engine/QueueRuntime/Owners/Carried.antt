-- ===== src/Engine/QueueRuntime/Owners/Carried.antt =====
-- Every step of a runtime keeps the owners.
use dsend.Base.{
  ℕ, zero, suc, ◌+◌, ℤ, eq_ℤ, String, not, ◌&&◌, Option, none, some, List, [], ◌∷◌, ◌≡◌, refl,
  lookup, if_cases,
}
use dsend.Model.{Message, Delivery}
use dsend.Queue.RingBuffer as Ring
use dsend.Session.{ConsumerSession}
use dsend.Storage.{Wal}
use dsend.Engine.{Shared}
use dsend.Engine.QueueRuntime.{QueueRuntime, Outcome, stamp, next_session, shutdown, drop_sessions}
use dsend.Engine.QueueRuntime.Produce.{publish, pushed, acked, ack, log_and_push_cases, ack_cases}
use dsend.Engine.QueueRuntime.Deliver.{
  dead_letter_rounds, dead_letter_expired_messages, head_dropped, reserve_for, hand_out, handed_out,
  reserve_live, reserve_delivery, cancel_reservation,
}
use dsend.Engine.QueueRuntime.Redelivery.{
  process_item, process_items, process_expired_messages, given_up, put_back,
}
use dsend.Engine.QueueRuntime.Cases.{
  Turn, dead_letter_rounds_cases, reserve_live_cases, process_item_cases,
}
use dsend.Engine.QueueRuntime.Tracks.{Tracks, IsTracked, expired-Tracks, Tracks-Permᴰ}
use dsend.Engine.QueueRuntime.Invariant.{Inv}
use dsend.Engine.QueueRuntime.Redelivers.{process_item-Going}
use dsend.Engine.QueueRuntime.Sound.{State, after_publish}
use dsend.Engine.QueueRuntime.Steps.{
  core-send, core-take_delivery, core-subscribe, core-unsubscribe, core-close_if_empty, Step,
  publishes, acks, reserves, sends, cancels, receives, expires, redelivers, subscribes,
  unsubscribes, shuts_down, closes,
}
use dsend.Engine.QueueRuntime.Owners.{
  Carries, Carries-trans, silent, taken, given, quiet, tokens-next_session,
}

module _ {W : Type 0} (name : String) where
  module _ ⦃wal : Wal W⦄ where
    publish-Carries :
        (q : QueueRuntime) (s : Shared W) (message : Message) (ttl : ℤ) (fresh_id : String)
        (now : ℕ)
        → Carries name (q, s) (after_publish (q, s) (publish q s message ttl fresh_id now))
    unfolding publish pushed
    publish-Carries q s message ttl fresh_id now =
        if_cases (λ (r : Option (Outcome W)). Carries name (q, s) (after_publish (q, s) r))
          (not q.closed && eq_ℤ (Ring.size q.queue) (Ring.capacity q.queue))
          (λ _. silent name refl refl)
          (λ _.
            if_cases (λ (r : Option (Outcome W)). Carries name (q, s) (after_publish (q, s) r))
              q.closed (λ _. silent name refl refl)
              (λ _.
                log_and_push_cases (λ r. Carries name (q, s) (r.0, r.1)) q s
                  (stamp message ttl fresh_id now) (λ _. silent name refl refl)
                  (λ _. silent name refl refl)))

    ack-Carries :
        (q : QueueRuntime) (s : Shared W) (token : String)
        → Carries name (q, s) ((ack q s token).0, (ack q s token).1)
    unfolding acked
    ack-Carries q s token =
        ack_cases (λ r. Carries name (q, s) (r.0, r.1)) q s token (λ _. silent name refl refl)
          (λ item e done. taken name _ token item e refl refl)
          (λ item e failed. silent name refl refl)

    dead_letter_rounds-Carries :
        (rounds : ℕ) (clock : ℕ → ℕ) (i : ℕ) (q : QueueRuntime) (s : Shared W)
        → Carries name
            (q, s)
            ((dead_letter_rounds rounds clock i q s).0, (dead_letter_rounds rounds clock i q s).1)
    unfolding dead_letter_rounds head_dropped
    dead_letter_rounds-Carries zero clock i q s = silent name refl refl
    dead_letter_rounds-Carries (suc rounds) clock i q s =
        dead_letter_rounds_cases q s (λ r. Carries name (q, s) (r.0, r.1)) rounds clock i
          (λ _. silent name refl refl) (λ _ _. silent name refl refl)
          (λ _ _.
            Carries-trans name (silent name refl refl)
              (dead_letter_rounds-Carries rounds clock (i + 1) _ _))

    -- Dropping messages takes no token.
    owners-dead_letter_rounds :
        (rounds : ℕ) (clock : ℕ → ℕ) (i : ℕ) (q : QueueRuntime) (s : Shared W)
        → (dead_letter_rounds rounds clock i q s).1.token_owners ≡ s.token_owners
    unfolding dead_letter_rounds
    owners-dead_letter_rounds zero clock i q s = refl
    owners-dead_letter_rounds (suc rounds) clock i q s =
        dead_letter_rounds_cases q s (λ r. r.1.token_owners ≡ s.token_owners) rounds clock i
          (λ _. refl) (λ _ _. refl) (λ _ _. owners-dead_letter_rounds rounds clock (i + 1) _ _)

    reserve_for-Carries :
        (r : QueueRuntime × Option ConsumerSession) (s : Shared W) (token : String) (now : ℕ)
        → lookup token s.token_owners ≡ none
        → Carries name (r.0, s) ((reserve_for r s token now).0, (reserve_for r s token now).1)
    unfolding reserve_for hand_out handed_out
    reserve_for-Carries (q, none) s token now unowned = silent name refl refl
    reserve_for-Carries (q, some sess) s token now unowned =
        given name token (Ring.pop q.queue).0 sess.id now unowned refl

    reserve_live-Carries :
        (r : Turn W) (token : String) (now : ℕ)
        → lookup token r.1.token_owners ≡ none
        → Carries name (r.0, r.1) ((reserve_live r token now).0, (reserve_live r token now).1)
    reserve_live-Carries (q, s, ok) token now unowned =
        reserve_live_cases q s (λ r. Carries name (q, s) (r.0, r.1)) ok token now
          (silent name refl refl)
          (λ _.
            Carries-trans name (silent name (tokens-next_session q) refl)
              (reserve_for-Carries (next_session q) s token now unowned))

    -- A delivery that is tracked is put back or given name up, or passed over.
    process_item-Carries :
        (q : QueueRuntime) (s : Shared W) (item : Delivery)
        → IsTracked q.in_flight_manager item
        → Carries name (q, s) (process_item q s item)
    unfolding given_up put_back
    process_item-Carries q s item (entry, e, _, _) =
        process_item_cases q s (Carries name (q, s)) item (λ _. silent name refl refl)
          (λ _ _ _. taken name _ item.ack_token entry e refl refl) (λ _ _ _. silent name refl refl)
          (λ _ _ _. taken name _ item.ack_token entry e refl refl) (λ _ _ _. silent name refl refl)

    process_items-Carries :
        (items : List Delivery) (q : QueueRuntime) (s : Shared W)
        → Inv q
        → Tracks q.in_flight_manager items
        → Carries name (q, s) (process_items q s items)
    unfolding process_items
    process_items-Carries [] q s v t = silent name refl refl
    process_items-Carries (item ∷ items) q s v t =
        let (v', t') = process_item-Going q s item items v t in
        Carries-trans name (process_item-Carries q s item t.0)
          (process_items-Carries items _ _ v' t')

    pub Step-Carries : {t u : State W} → Step t u → Inv t.0 → Carries name t u
    unfolding dead_letter_expired_messages reserve_delivery process_expired_messages shutdown
        drop_sessions cancel_reservation
    Step-Carries (publishes q s message ttl fresh_id now fresh) v =
        publish-Carries q s message ttl fresh_id now
    Step-Carries (acks q s token) v = ack-Carries q s token
    Step-Carries (reserves q s clock token now fresh unowned) v =
        Carries-trans name (dead_letter_rounds-Carries _ clock 0 q s)
          (reserve_live-Carries _ token now (rw (owners-dead_letter_rounds _ clock 0 q s) unowned))
    Step-Carries (sends q s sess delivery) v = quiet name q _ s (core-send q sess delivery)
    Step-Carries (cancels q s delivery room (entry, e, _, _)) v =
        taken name s delivery.ack_token entry e refl refl
    Step-Carries (receives q s id address) v = quiet name q _ s (core-take_delivery q id address)
    Step-Carries (expires q s clock) v = dead_letter_rounds-Carries _ clock 0 q s
    Step-Carries (redelivers q s now order shuffles) v =
        if_cases (Carries name (q, s)) q.closed (λ _. silent name refl refl)
          (λ _. process_items-Carries _ q s v (
            Tracks-Permᴰ q.in_flight_manager (shuffles _)
              (expired-Tracks q.config.ack_timeout now q.in_flight_manager v.flight)))
    Step-Carries (subscribes q s sess) v = quiet name q _ s (core-subscribe q sess)
    Step-Carries (unsubscribes q s id) v = quiet name q _ s (core-unsubscribe q id)
    Step-Carries (shuts_down q s) v = silent name refl refl
    Step-Carries (closes q s) v = quiet name q _ s (core-close_if_empty q)
