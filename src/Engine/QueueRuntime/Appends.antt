-- ===== src/Engine/QueueRuntime/Appends.antt =====
-- Publish of a runtime, seen from the queue: the message comes behind the others, or nothing changes.
use dsend.Base.{
  ◌<◌, true, false, length, ℤ, ℕ, String, not, ◌&&◌, Option, none, some, [], ◌∷◌, ◌++◌, ◌≡◌, ◌≢◌,
  ◌⊎◌, refl, inl, inr, subst, arith, Perm, eq_ℤ, if_cases,
}
use dsend.Model.{Message}
use dsend.Queue.RingBuffer as Ring
use dsend.Queue.RingBuffer.Contents.{contents, push_lem, size_full, length-contents}
use dsend.Storage.{Wal}
use dsend.Engine.{Shared, Error}
use dsend.Engine.QueueRuntime.{QueueRuntime, Outcome, stamp}
use dsend.Engine.QueueRuntime.Produce.{
  pushed, publish, published_record, log_and_push, log_and_push_cases,
}
use dsend.Engine.QueueRuntime.Invariant.{Inv}
use dsend.Engine.QueueRuntime.Balance.{not_full}
use dsend.Engine.QueueRuntime.Durable.{live, live-pushed}

-- What a call that does not wait makes of the runtime.
abbrev pub Appended : QueueRuntime → Message → QueueRuntime → Option Error → Type 0
Appended q message q' err =
    ((err ≡ none)
      × (contents q'.queue ≡ contents q.queue ++ message ∷ [])
      × Perm (live q') (message ∷ live q))
    ⊎ ((err ≢ none) × (q' ≡ q))

module _ {W : Type 0} ⦃wal : Wal W⦄ where
  abbrev AppendedUnlessWaiting : QueueRuntime → Message → Option (Outcome W) → Type 0
  AppendedUnlessWaiting q message none = Unit
  AppendedUnlessWaiting q message (some (q', s', err)) = Appended q message q' err

  publish-AppendedUnlessWaiting :
      (q : QueueRuntime) (s : Shared W) (message : Message) (ttl : ℤ) (fresh_id : String) (now : ℕ)
      → Inv q
      → AppendedUnlessWaiting q
          (stamp message ttl fresh_id now)
          (publish q s message ttl fresh_id now)
  unfolding publish pushed
  publish-AppendedUnlessWaiting q s message ttl fresh_id now v =
      let m = stamp message ttl fresh_id now in
      if_cases (AppendedUnlessWaiting q m)
        (not q.closed && eq_ℤ (Ring.size q.queue) (Ring.capacity q.queue)) (λ _. tt)
        (λ go.
          if_cases (AppendedUnlessWaiting q m) q.closed (λ _. inr ((λ e. cc e), refl))
            (λ open_queue.
              let room = not_full v (ground arith) in
              log_and_push_cases (λ r. Appended q m r.0 r.2) q s m
                (λ _. inl (refl, (push_lem m v.ring room).1, live-pushed v m room))
                (λ _. inr ((λ e. cc e), refl))))

  pub publish-Appended :
      (q q' : QueueRuntime) (s s' : Shared W) (err : Option Error) (message : Message) (ttl : ℤ)
      (fresh_id : String) (now : ℕ)
      → Inv q
      → publish q s message ttl fresh_id now ≡ some (q', s', err)
      → Appended q (stamp message ttl fresh_id now) q' err
  publish-Appended q q' s s' err message ttl fresh_id now v e =
      subst (AppendedUnlessWaiting q (stamp message ttl fresh_id now)) e
        (publish-AppendedUnlessWaiting q s message ttl fresh_id now v)

  -- When the queue is open and has room, and the log takes the record, the call returns at once.
  module _ {q : QueueRuntime} (v : Inv q) (s : Shared W) (message : Message) (ttl : ℤ)
      (fresh_id : String) (now : ℕ) (is_open : q.closed ≡ false)
      (room : length (contents q.queue) < q.queue.cap) where
    abbrev stamped : Message
    stamped = stamp message ttl fresh_id now

    pub publish-pushed :
        (wal.append s.wal (published_record q stamped)).1 ≡ true
        → publish q s message ttl fresh_id now
          ≡ some (
            pushed q stamped,
            record s { wal = (wal.append s.wal (published_record q stamped)).0 },
            none,
          )
    unfolding publish log_and_push
    publish-pushed logged = rw (is_open, full, logged, publish) refl
      where
        full : eq_ℤ (Ring.size q.queue) (Ring.capacity q.queue) ≡ false
        full = ground (arith, size_full v.ring, length-contents q.queue, room)

    pub pushed_lem :
        (contents (pushed q stamped).queue ≡ contents q.queue ++ stamped ∷ [])
        × ((pushed q stamped).queue.cap ≡ q.queue.cap)
        × ((pushed q stamped).closed ≡ false)
    unfolding pushed
    pushed_lem = let (_, grown, cap) = push_lem stamped v.ring room in (grown, cap, is_open)
