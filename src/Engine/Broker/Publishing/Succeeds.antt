-- ===== src/Engine/Broker/Publishing/Succeeds.antt =====
-- When Publish of the broker returns without an error: a theorem that it does.
use text.Mathlib.TextPositions.{eq_refl}
use mathlib.Core.Option.{some-injective}
use dsend.Base.{
  ℤ, ℕ, suc, ◌+◌, ◌≤◌, ◌<◌, String, true, false, Option, none, some, List, [], ◌∷◌, ◌≡◌, ◌≢◌, refl,
  sym, subst, arith, inl, inr, length, length-append, lookup, lookup-insert, has, has-insert,
  has-none, text_cases, Option-cases, All, All-map, nat_eq,
}
use dsend.Model.{Message, Record}
use dsend.Queue.RingBuffer.Contents.{contents}
use dsend.Storage.{Wal, IsWal}
use dsend.Exchange.{Exchange, route}
use dsend.Engine.{Error}
use dsend.Engine.QueueRuntime.{QueueRuntime, stamp}
use dsend.Engine.QueueRuntime.Produce.{pushed, published_record}
use dsend.Engine.QueueRuntime.Appends.{publish-pushed, pushed_lem}
use dsend.Engine.Broker.{Broker, put_queue}
use dsend.Engine.Broker.Messages.{
  queue_key, Publishing, finished, waiting, queue, publish_one, publish_all, publish,
}
use dsend.Engine.Broker.Sound.{Sound}
use dsend.Engine.Broker.Steps.{broker-Sound}
use dsend.Engine.Broker.Publishing.{Unused, copies, One, one}

module _ {W : Type 0} ⦃wal : Wal W⦄ (laws : IsWal wal) (message : Message) (ttl : ℤ)
    (fresh : ℕ → String) (clock : ℕ → ℕ) where
  -- The broker is open, the queues are there, and each of them is open and has room for what it gets.
  pub record Ready (b : Broker W) (names : List String) (i : ℕ) : Type 0 where
    pub is_open : b.closed ≡ false
    pub known : All (λ (name : String). has (queue_key name) b.queues ≡ true) names
    pub roomy :
        (n : String) (q : QueueRuntime)
        → lookup n b.queues ≡ some q
        → 0 < length (copies laws message ttl fresh clock n names i)
        → (q.closed ≡ false)
          × (length (contents q.queue) + length (copies laws message ttl fresh clock n names i)
              ≤ q.queue.cap)

  module _ (unnamed : message.id ≡ "") (distinct : (i j : ℕ) → i ≢ j → fresh i ≢ fresh j)
      (accepts : (w : W) (r : Record) → (wal.append w r).1 ≡ true) where
    module _ (name : String) (names : List String) {b : Broker W} (i : ℕ) (t : Sound laws b)
        (ready : Ready b (name ∷ names) i) {q : QueueRuntime}
        (found : lookup (queue_key name) b.queues ≡ some q) where
      -- the queue is open and has room for one message and those to come
      room_here :
          (q.closed ≡ false)
          × (length (contents q.queue)
                + suc (length (copies laws message ttl fresh clock (queue_key name) names (i + 1)))
              ≤ q.queue.cap)
      unfolding copies
      room_here =
          let (q_open, room) = ready.roomy (queue_key name) q found (rw eq_refl (omega arith)) in
          (q_open, rw eq_refl at room)

      -- the broker after the round
      abbrev after : Broker W
      after =
          put_queue
            (record b {
              shared = record b.shared {
                wal =
                    (wal.append b.shared.wal
                      (published_record q (stamp message ttl (fresh i) (clock i)))).0;
              };
            })
            (queue_key name) (pushed q (stamp message ttl (fresh i) (clock i)))

      queue_here : queue b name ≡ inr q
      unfolding queue
      queue_here = rw (ready.is_open, found, queue) refl

      round_fine : publish_one b name message ttl (fresh i) (clock i) ≡ (after, some none)
      unfolding publish_one
      round_fine =
          rw
            (
              queue_here,
              publish-pushed (t.runtimes (queue_key name) q found).1.inv b.shared message ttl
                  (fresh i) (clock i) room_here.0 (omega (arith, room_here.1))
                  (accepts b.shared.wal _),
              publish_one,
            )
            refl

      after-Ready : Ready after names (i + 1)
      unfolding copies
      after-Ready =
          let (grown, cap, still_open) =
            pushed_lem (t.runtimes (queue_key name) q found).1.inv b.shared message ttl (fresh i)
              (clock i) room_here.0 (omega (arith, room_here.1)) in
          record {
            is_open = ready.is_open;
            known =
                All-map _ _ names
                  (λ other h. ground (
                    arith,
                    h,
                    has-insert (queue_key name) (queue_key other)
                        (pushed q (stamp message ttl (fresh i) (clock i))) b.queues,
                  ))
                  ready.known.1;
            roomy = λ n r at_n some_copy. elim (text_cases (queue_key name) n) [
              | inl (h, p) ↦
                  subst
                    (λ (k : QueueRuntime).
                      (k.closed ≡ false)
                      × (length (contents k.queue)
                            + length (copies laws message ttl fresh clock n names (i + 1))
                          ≤ k.queue.cap))
                    (some-injective _ r (rw (lookup-insert, h) at at_n))
                    (
                      still_open,
                      rw (grown, cap, ← p)
                          (omega (
                            arith,
                            length-append (contents q.queue)
                                (stamp message ttl (fresh i) (clock i) ∷ []),
                            room_here.1,
                          )),
                    )
              | inr (h, _) ↦
                  rw h at (ready.roomy n r (rw (lookup-insert, h) at at_n) (rw h some_copy))
            ];
          }

    rounds_fine :
        (names : List String) (b : Broker W) (i : ℕ)
        → Sound laws b
        → Unused laws message ttl fresh clock b i
        → Ready b names i
        → (publish_all names b message ttl fresh clock i).1 ≡ finished none
    unfolding publish_all
    rounds_fine [] b i t u ready = refl
    rounds_fine (name ∷ names) b i t u ready =
        elim (Option-cases (lookup (queue_key name) b.queues)) [
          | inl e ↦ cc (ready.known.0, has-none (queue_key name) b.queues e)
          | inr (q, found) ↦
              let only = round_fine name names i t ready found in
              let first =
                subst (One laws message ttl fresh clock unnamed distinct b name i) only
                  (one laws message ttl fresh clock unnamed distinct t i u name) in
              subst
                (λ (o : Broker W × Option (Option Error)).
                  (elim o.1 as (λ _. Broker W × Publishing) [
                    | none ↦ (o.0, waiting (name ∷ names))
                    | some (some err) ↦ (o.0, finished (some err))
                    | some none ↦ publish_all names o.0 message ttl fresh clock (i + 1)
                  ]).1
                  ≡ finished none)
                (sym only)
                (rounds_fine names _ (i + 1) (broker-Sound laws t first.reached) first.unused
                  (after-Ready name names i t ready found))
        ]

    -- Publish, in a sound broker, of a message without an ID, with fresh IDs that differ from each other
    -- and that no queued or in-flight message has, when the log accepts every record: if the exchange
    -- exists and its route names at least one queue, the broker is open, and every queue that the route
    -- names exists, is open and has room for the message as often as it is named, then Publish returns,
    -- without an error.
    pub publish-Succeeds :
        (b : Broker W) (exchange_name routing_key : String) (e : Exchange)
        → Sound laws b
        → Unused laws message ttl fresh clock b 0
        → lookup exchange_name b.exchanges ≡ some e
        → 0 < length (route e routing_key)
        → Ready b (route e routing_key) 0
        → (publish b exchange_name routing_key message ttl fresh clock).1 ≡ finished none
    unfolding publish
    publish-Succeeds b exchange_name routing_key e t u found some_queue ready =
        rw (found, some_route, publish) (rounds_fine (route e routing_key) b 0 t u ready)
      where
        some_route : nat_eq (length (route e routing_key)) 0 ≡ false
        some_route = ground arith
