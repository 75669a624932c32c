-- ===== src/Engine/QueueRuntime/Frame.antt =====
-- A step of a runtime keeps its name, and writes only records of messages of its own queue.
use dsend.Base.{
  ℕ, zero, suc, ◌+◌, ℤ, String, not, ◌&&◌, Option, none, some, List, [], ◌∷◌, ◌≡◌, refl, ap, ◌∙◌,
  inl, inr, if_cases, Bool-cases, eq_ℤ,
}
use dsend.Model.{Message, Delivery, Record}
use dsend.Queue.RingBuffer as Ring
use dsend.Session.{ConsumerSession}
use dsend.Storage.{Wal, IsWal}
use dsend.Storage.Frame.{Frame, Frame-refl, Frame-trans, Frame-append, IsMessageRecord}
use dsend.Engine.{Shared, TokenHook}
use dsend.Engine.QueueRuntime.{
  QueueRuntime, Outcome, call_hook, stamp, next_session, shutdown, drop_sessions,
}
use dsend.Engine.QueueRuntime.Produce.{pushed, acked, publish, ack, log_and_push_cases, ack_cases}
use dsend.Engine.QueueRuntime.Deliver.{
  head_dropped, handed_out, dead_letter_rounds, dead_letter_expired_messages, reserve_for, hand_out,
  reserve_live, reserve_delivery, cancel_reservation,
}
use dsend.Engine.QueueRuntime.Redelivery.{
  given_up, put_back, process_item, process_items, process_expired_messages,
}
use dsend.Engine.QueueRuntime.Cases.{
  Turn, dead_letter_rounds_cases, reserve_live_cases, process_item_cases,
}
use dsend.Engine.QueueRuntime.Balance.{name-next_session}
use dsend.Engine.QueueRuntime.Sound.{State, after_publish, hook_wal}
use dsend.Engine.QueueRuntime.Steps.{
  Step, publishes, acks, reserves, sends, cancels, receives, expires, redelivers, subscribes,
  unsubscribes, shuts_down, closes, Core, core-send, core-take_delivery, core-subscribe,
  core-unsubscribe, core-close_if_empty,
}

module _ {W : Type 0} ⦃wal : Wal W⦄ (laws : IsWal wal) where
  pub record Keeps (t u : State W) : Type 0 where
    pub name : u.0.name ≡ t.0.name
    pub frame : Frame t.0.name (laws.log t.1.wal) (laws.log u.1.wal)

  Keeps-trans : {t u v : State W} → Keeps t u → Keeps u v → Keeps t v
  Keeps-trans k l = record {
    name = l.name ∙ k.name;
    frame = Frame-trans k.frame (rw (← k.name) l.frame);
  }

  -- A step that does not touch the log.
  quiet : {q q' : QueueRuntime} {s : Shared W} → q'.name ≡ q.name → Keeps (q, s) (q', s)
  quiet e = record { name = e; frame = Frame-refl }

  -- After an Append, whether it failed or not.
  appended :
      {q q' : QueueRuntime} {s : Shared W} (r : Record)
      → q'.name ≡ q.name
      → r.queue ≡ q.name
      → IsMessageRecord r
      → Keeps (q, s) (q', record s { wal = (wal.append s.wal r).0 })
  appended {q} {q'} {s} r e here t = record {
    name = e;
    frame = elim (Bool-cases (wal.append s.wal r).1) [
      | inl done ↦ rw (laws.append_ok s.wal r done) (Frame-append (laws.log s.wal) r here t)
      | inr failed ↦ rw (laws.append_failed s.wal r failed) Frame-refl
    ];
  }

  hooked :
      {t : State W} {q : QueueRuntime} {s : Shared W} (hook : TokenHook) (token : String)
      → Keeps t (q, s)
      → Keeps t (q, call_hook hook token s)
  hooked {t} {q} {s} hook token k = record {
    name = k.name;
    frame = rw (hook_wal hook token s) k.frame;
  }

  publish-Keeps :
      (q : QueueRuntime) (s : Shared W) (message : Message) (ttl : ℤ) (fresh_id : String) (now : ℕ)
      → Keeps (q, s) (after_publish (q, s) (publish q s message ttl fresh_id now))
  unfolding publish pushed
  publish-Keeps q s message ttl fresh_id now =
      if_cases (λ (r : Option (Outcome W)). Keeps (q, s) (after_publish (q, s) r))
        (not q.closed && eq_ℤ (Ring.size q.queue) (Ring.capacity q.queue)) (λ _. quiet refl)
        (λ _.
          if_cases (λ (r : Option (Outcome W)). Keeps (q, s) (after_publish (q, s) r)) q.closed
            (λ _. quiet refl)
            (λ _.
              log_and_push_cases (λ r. Keeps (q, s) (r.0, r.1)) q s (stamp message ttl fresh_id now)
                (λ _. appended _ refl refl (inl refl)) (λ _. appended _ refl refl (inl refl))))

  ack-Keeps :
      (q : QueueRuntime) (s : Shared W) (token : String)
      → Keeps (q, s) ((ack q s token).0, (ack q s token).1)
  unfolding acked
  ack-Keeps q s token =
      ack_cases (λ r. Keeps (q, s) (r.0, r.1)) q s token (λ _. quiet refl)
        (λ item e done. hooked q.remove_token token (appended _ refl refl (inr (inr (inl refl)))))
        (λ item e failed. appended _ refl refl (inr (inr (inl refl))))

  dead_letter_rounds-Keeps :
      (rounds : ℕ) (clock : ℕ → ℕ) (i : ℕ) (q : QueueRuntime) (s : Shared W)
      → Keeps
          (q, s)
          ((dead_letter_rounds rounds clock i q s).0, (dead_letter_rounds rounds clock i q s).1)
  unfolding dead_letter_rounds head_dropped
  dead_letter_rounds-Keeps zero clock i q s = quiet refl
  dead_letter_rounds-Keeps (suc rounds) clock i q s =
      dead_letter_rounds_cases q s (λ r. Keeps (q, s) (r.0, r.1)) rounds clock i (λ _. quiet refl)
        (λ _ _. appended _ refl refl (inr (inr (inr refl))))
        (λ _ _.
          Keeps-trans (appended _ refl refl (inr (inr (inr refl))))
            (dead_letter_rounds-Keeps rounds clock (i + 1) _ _))

  reserve_for-Keeps :
      (r : QueueRuntime × Option ConsumerSession) (s : Shared W) (token : String) (now : ℕ)
      → Keeps (r.0, s) ((reserve_for r s token now).0, (reserve_for r s token now).1)
  unfolding reserve_for hand_out handed_out
  reserve_for-Keeps (q, none) s token now = quiet refl
  reserve_for-Keeps (q, some sess) s token now = hooked q.register_token token (quiet refl)

  reserve_live-Keeps :
      (r : Turn W) (token : String) (now : ℕ)
      → Keeps (r.0, r.1) ((reserve_live r token now).0, (reserve_live r token now).1)
  reserve_live-Keeps (q, s, ok) token now =
      reserve_live_cases q s (λ r. Keeps (q, s) (r.0, r.1)) ok token now (quiet refl)
        (λ _.
          Keeps-trans (quiet (name-next_session q))
            (reserve_for-Keeps (next_session q) s token now))

  process_item-Keeps :
      (q : QueueRuntime) (s : Shared W) (item : Delivery) → Keeps (q, s) (process_item q s item)
  unfolding given_up put_back
  process_item-Keeps q s item =
      process_item_cases q s (Keeps (q, s)) item (λ _. quiet refl)
        (λ _ _ _.
          hooked q.remove_token item.ack_token (appended _ refl refl (inr (inr (inr refl)))))
        (λ _ _ _. appended _ refl refl (inr (inr (inr refl))))
        (λ _ _ _. hooked q.remove_token item.ack_token (appended _ refl refl (inr (inl refl))))
        (λ _ _ _. appended _ refl refl (inr (inl refl)))

  process_items-Keeps :
      (items : List Delivery) (q : QueueRuntime) (s : Shared W)
      → Keeps (q, s) (process_items q s items)
  unfolding process_items
  process_items-Keeps [] q s = quiet refl
  process_items-Keeps (item ∷ items) q s =
      Keeps-trans (process_item-Keeps q s item) (process_items-Keeps items _ _)

  pub Step-Keeps : {t u : State W} → Step t u → Keeps t u
  unfolding dead_letter_expired_messages reserve_delivery process_expired_messages shutdown
      drop_sessions cancel_reservation
  Step-Keeps (publishes q s message ttl fresh_id now fresh) =
      publish-Keeps q s message ttl fresh_id now
  Step-Keeps (acks q s token) = ack-Keeps q s token
  Step-Keeps (reserves q s clock token now fresh unowned) =
      Keeps-trans (dead_letter_rounds-Keeps _ clock 0 q s) (reserve_live-Keeps _ token now)
  Step-Keeps (sends q s sess delivery) = quiet (ap (λ (c : Core). c.0) (core-send q sess delivery))
  Step-Keeps (cancels q s delivery room tracked) =
      hooked q.remove_token delivery.ack_token (quiet refl)
  Step-Keeps (receives q s id address) =
      quiet (ap (λ (c : Core). c.0) (core-take_delivery q id address))
  Step-Keeps (expires q s clock) = dead_letter_rounds-Keeps _ clock 0 q s
  Step-Keeps (redelivers q s now order shuffles) =
      if_cases (Keeps (q, s)) q.closed (λ _. quiet refl) (λ _. process_items-Keeps _ q s)
  Step-Keeps (subscribes q s sess) = quiet (ap (λ (c : Core). c.0) (core-subscribe q sess))
  Step-Keeps (unsubscribes q s id) = quiet (ap (λ (c : Core). c.0) (core-unsubscribe q id))
  Step-Keeps (shuts_down q s) = quiet refl
  Step-Keeps (closes q s) = quiet (ap (λ (c : Core). c.0) (core-close_if_empty q))
