-- ===== src/Engine/Broker/Publishing.antt =====
-- Publish of the broker: it is a run of the runtimes' Publish, and every queue that the exchange names
-- gets the message.
pub mod Succeeds
use mathlib.Core.List.{eq-or-mem_of_mem-cons}
use mathlib.Core.List.Perm
use mathlib.Core.Option.{some-injective}
use mathlib.Core.Logic.Or
use mathlib.Core.HLevel.{⊥_prop}
use dsend.Base.{
  ℤ, ℕ, ◌+◌, ◌≤◌, String, Option, none, some, List, [], ◌∷◌, ◌++◌, ◌≡◌, ◌≢◌, ◌⊎◌, refl, sym, ap,
  subst, ◌∙◌, arith, inl, inr, Perm, Mem, append_assoc, append-nil, lookup, lookup-insert, str_eq,
  text_cases, if_cases, Option-cases, nat_eq, length, if◌then◌else◌,
}
use dsend.Model.{Message}
use dsend.Queue.RingBuffer.Contents.{contents}
use dsend.Storage.{Wal, IsWal}
use dsend.Storage.Durable.{ids}
use dsend.Exchange.{Exchange, route}
use dsend.Engine.{Shared, Error, err_broker_closed, err_queue_not_found}
use dsend.Engine.QueueRuntime.{QueueRuntime, stamp}
use dsend.Engine.QueueRuntime.Produce
use dsend.Engine.QueueRuntime.Durable.{live}
use dsend.Engine.QueueRuntime.Sound.{after_publish}
use dsend.Engine.QueueRuntime.Steps as Runtime
use dsend.Engine.QueueRuntime.Appends.{publish-Appended}
use dsend.Engine.Broker.{Broker, put_queue}
use dsend.Engine.Broker.Messages.{
  queue_key, Publishing, finished, queue, publish_one, publish_all, publish,
}
use dsend.Engine.Broker.Sound.{Sound}
use dsend.Engine.Broker.Steps.{works, Reach, here, next, broker-Sound}

-- The IDs of a runtime after a message more.
still_fresh :
    {ms ms' : List Message} {m : Message} (id : String)
    → Perm ms' (m ∷ ms)
    → id ≢ m.id
    → ¬ Mem id (ids ms)
    → ¬ Mem id (ids ms')
still_fresh id p new absent k =
    Or.elim ⊥_prop (eq-or-mem_of_mem-cons ((Perm.mem_iff (Perm.map _ p)).0 k)) new absent

module _ {W : Type 0} where
  -- What `queue` returns is the runtime at its key.
  pub queue_cases :
      (b : Broker W) (name : String)
      → ((err : Error) × (queue b name ≡ inl err))
        ⊎ ((q : QueueRuntime) × (queue b name ≡ inr q)
            × (lookup (queue_key name) b.queues ≡ some q))
  unfolding queue
  queue_cases b name =
      if_cases
        (λ r.
          ((err : Error) × (r ≡ inl err))
          ⊎ ((q : QueueRuntime) × (r ≡ inr q) × (lookup (queue_key name) b.queues ≡ some q)))
        b.closed (λ _. inl (err_broker_closed, refl))
        (λ _. elim (Option-cases (lookup (queue_key name) b.queues)) [
          | inl e ↦ rw e (inl (err_queue_not_found, refl))
          | inr (q, e) ↦ rw e (inr (q, refl, refl))
        ])

module _ {W : Type 0} ⦃wal : Wal W⦄ where
  pub Reach-trans : {b c d : Broker W} → Reach b c → Reach c d → Reach b d
  Reach-trans r here = r
  Reach-trans r (next s st) = next (Reach-trans r s) st

module _ {W : Type 0} ⦃wal : Wal W⦄ (laws : IsWal wal) (message : Message) (ttl : ℤ)
    (fresh : ℕ → String) (clock : ℕ → ℕ) where
  -- the message of the i-th round
  abbrev pub round : ℕ → Message
  round i = stamp message ttl (fresh i) (clock i)

  -- The IDs to come are not in use.
  abbrev pub Unused : Broker W → ℕ → Type 0
  Unused b i =
      (j : ℕ) (n : String) (q : QueueRuntime)
      → i ≤ j
      → lookup n b.queues ≡ some q
      → ¬ Mem (fresh j) (ids (live q))

  -- what a queue gets from the rounds over the names
  unfoldable pub copies : String → List String → ℕ → List Message
  copies n [] i = []
  copies n (name ∷ names) i =
      let rest = copies n names (i + 1) in
      if str_eq (queue_key name) n then round i ∷ rest else rest

  -- The queue of each name has its old messages, and some more.
  abbrev pub Grows : Broker W → Broker W → (String → List Message) → Type 0
  Grows b c more =
      (n : String) (q : QueueRuntime)
      → lookup n b.queues ≡ some q
      → (q' : QueueRuntime) × (lookup n c.queues ≡ some q')
        × (contents q'.queue ≡ contents q.queue ++ more n)

  module _ (unnamed : message.id ≡ "") (distinct : (i j : ℕ) → i ≢ j → fresh i ≢ fresh j) where
    id-round : (i : ℕ) → (round i).id ≡ fresh i
    unfolding stamp
    id-round i = rw unnamed refl

    record One (b : Broker W) (name : String) (i : ℕ) (o : Broker W × Option (Option Error))
        : Type 0 where
      reached : Reach b o.0
      unused : Unused o.0 (i + 1)
      grows :
          o.1 ≡ some none
          → Grows b o.0 (λ n. if str_eq (queue_key name) n then round i ∷ [] else [])

    module _ {b : Broker W} (t : Sound laws b) (i : ℕ) (u : Unused b i) where
      later : Unused b (i + 1)
      later j n q le e = u j n q (omega (arith, le)) e

      -- the call of the runtime has returned
      returned :
          (name : String) (q q' : QueueRuntime) (s' : Shared W) (err : Option Error)
          → lookup (queue_key name) b.queues ≡ some q
          → Produce.publish q b.shared message ttl (fresh i) (clock i) ≡ some (q', s', err)
          → One b name i (put_queue (record b { shared = s' }) (queue_key name) q', some err)
      returned name q q' s' err found e =
          let key = queue_key name in
          let appended =
            publish-Appended q q' b.shared s' err message ttl (fresh i) (clock i)
              (t.runtimes key q found).1.inv e in
          record {
            reached = next here (
                works b key q q' s' found (
                  subst (λ r. Runtime.Step (q, b.shared) (after_publish (q, b.shared) r)) e
                    (Runtime.publishes q b.shared message ttl (fresh i) (clock i)
                      (rw (id-round i) (u i key q (omega arith) found)))));
            unused = λ j n r le at_n. elim (text_cases key n) [
              | inl (h, _) ↦
                  subst (λ (k : QueueRuntime). ¬ Mem (fresh j) (ids (live k)))
                    (some-injective q' r (rw (lookup-insert, h) at at_n))
                    (elim appended [
                      | inl (_, _, p) ↦
                          still_fresh (fresh j) p
                            (rw (id-round i) (distinct j i (λ same. omega (arith, same, le))))
                            (later j key q le found)
                      | inr (_, same) ↦ rw same (later j key q le found)
                    ])
              | inr (h, _) ↦ later j n r le (rw (lookup-insert, h) at at_n)
            ];
            grows = λ fine n r at_n. elim (text_cases key n) [
              | inl (h, p) ↦ (
                q',
                rw (lookup-insert, h) refl,
                elim appended [
                  | inl (_, grown, _) ↦
                      rw
                        (
                          h,
                          some-injective r q
                              (sym at_n ∙ ap (λ k. lookup k b.queues) (sym p) ∙ found),
                        )
                        grown
                  | inr (failed, _) ↦ absurd (failed (some-injective err none fine))
                ],
              )
              | inr (h, _) ↦ (r, rw (lookup-insert, h) at_n, rw (h, append-nil) refl)
            ];
          }

      one : (name : String) → One b name i (publish_one b name message ttl (fresh i) (clock i))
      unfolding publish_one
      one name = elim (queue_cases b name) [
        | inl (err, e) ↦
            rw (e, publish_one) (record { reached = here; unused = later; grows = λ f. cc f })
        | inr (q, e, found) ↦
            elim (Option-cases (Produce.publish q b.shared message ttl (fresh i) (clock i))) [
              | inl f ↦
                  rw (e, f, publish_one)
                    (record { reached = here; unused = later; grows = λ k. cc k })
              | inr ((q', s', err), f) ↦ rw (e, f, publish_one) (returned name q q' s' err found f)
            ]
      ]

    pub record Rounds (b : Broker W) (names : List String) (i : ℕ) (o : Broker W × Publishing)
        : Type 0 where
      pub reached : Reach b o.0
      pub grows : o.1 ≡ finished none → Grows b o.0 (λ n. copies n names i)

    pub rounds :
        (names : List String) (b : Broker W) (i : ℕ)
        → Sound laws b
        → Unused b i
        → Rounds b names i (publish_all names b message ttl fresh clock i)
    unfolding publish_all copies
    rounds [] b i t u = record {
      reached = here;
      grows = λ _ n q e. (q, e, sym (append-nil (contents q.queue)));
    }
    rounds (name ∷ names) b i t u =
        let first = one t i u name in
        elim (Option-cases (publish_one b name message ttl (fresh i) (clock i)).1) [
          | inl e ↦ rw (e, publish_all) (record { reached = first.reached; grows = λ f. cc f })
          | inr (some err, e) ↦
              rw (e, publish_all) (record { reached = first.reached; grows = λ f. cc f })
          | inr (none, e) ↦
              let rest = rounds names _ (i + 1) (broker-Sound laws t first.reached) first.unused in
              rw (e, publish_all)
                (record {
                  reached = Reach-trans first.reached rest.reached;
                  grows = λ fine n q found.
                      let (q1, found1, grown1) = first.grows e n q found in
                      let (q2, found2, grown2) = rest.grows fine n q1 found1 in
                      (
                        q2,
                        found2,
                        grown2 ∙ elim (text_cases (queue_key name) n) [
                          | inl (h, _) ↦
                              rw (h, rw h at grown1)
                                (append_assoc (contents q.queue) (round i ∷ [])
                                  (copies n names (i + 1)))
                          | inr (h, _) ↦ rw (h, rw (h, append-nil) at grown1) refl
                        ],
                      );
                })
        ]

    module _ (b : Broker W) (exchange_name routing_key : String) (t : Sound laws b)
        (u : Unused b 0) where
      -- what Publish returns
      abbrev published : Broker W × Publishing
      published = publish b exchange_name routing_key message ttl fresh clock

      -- Publish, in a sound broker, of a message without an ID, with fresh IDs that differ from each
      -- other and that no queued or in-flight message has: however it ends, it is a sequence of steps
      -- of the broker.
      pub publish-Reach : Reach b published.0
      unfolding publish
      publish-Reach = elim (Option-cases (lookup exchange_name b.exchanges)) [
        | inl e ↦ rw (e, publish) here
        | inr (e, found) ↦
            rw (found, publish)
              (if_cases (λ (o : Broker W × Publishing). Reach b o.0)
                (nat_eq (length (route e routing_key)) 0) (λ _. here)
                (λ _. (rounds (route e routing_key) b 0 t u).reached))
      ]

      -- Publish, in a sound broker, of a message without an ID, with fresh IDs that differ from each
      -- other and that no queued or in-flight message has, to an exchange that exists: if it returns
      -- without an error, then every queue has its messages as before, and behind them the message,
      -- stamped anew, once for each time that the exchange's route names the queue.
      pub publish_lem :
          (e : Exchange)
          → lookup exchange_name b.exchanges ≡ some e
          → published.1 ≡ finished none
          → (n : String) (q : QueueRuntime) → lookup n b.queues ≡ some q
          → (q' : QueueRuntime) × (lookup n published.0.queues ≡ some q')
            × (contents q'.queue ≡ contents q.queue ++ copies n (route e routing_key) 0)
      unfolding publish
      publish_lem e found =
          rw (found, publish)
            (if_cases
              (λ (o : Broker W × Publishing).
                o.1 ≡ finished none → Grows b o.0 (λ n. copies n (route e routing_key) 0))
              (nat_eq (length (route e routing_key)) 0) (λ _ f. cc f)
              (λ _. (rounds (route e routing_key) b 0 t u).grows))
