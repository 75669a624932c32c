-- ===== src/Engine/Broker/Sound.antt =====
-- The broker's invariant: its runtimes are sound and named by their queues, the log has its queues and
-- exchanges, and no binding leads nowhere.
use mathlib.Core.Option.{some-injective}
use dsend.Base.{
  ◌<◌, pos_part, String, true, false, some, ◌≡◌, ◌≢◌, sym, subst, ◌∙◌, inl, inr, Map, lookup,
  insert, delete, has, lookup-insert, lookup-delete, text_cases, if_cases, All,
}
use dsend.Model.{Binding, Record, default_queue_name, default_exchange_name}
use dsend.Storage.{Wal, IsWal, replay, pending}
use dsend.Exchange.{Exchange}
use dsend.Engine.{Shared, err_wal_append}
use dsend.Engine.QueueRuntime.{QueueRuntime}
use dsend.Engine.QueueRuntime.Sound as Runtime
use dsend.Engine.Broker.{Broker, Outcome, with_log, log_then}
use dsend.Engine.Broker.Agrees.{Agrees}

-- A binding leads to a queue that exists.
abbrev pub LeadsTo : Map QueueRuntime → Binding → Type 0
LeadsTo queues b = has b.queue_name queues ≡ true

-- Every binding of every exchange does.
abbrev pub AreBound : Map QueueRuntime → Map Exchange → Type 0
AreBound queues exchanges =
    (x : String) (e : Exchange) → lookup x exchanges ≡ some e → All (LeadsTo queues) e.bindings

module _ {W : Type 0} ⦃wal : Wal W⦄ (laws : IsWal wal) where
  abbrev pub Runtimes : Map QueueRuntime → Shared W → Type 0
  Runtimes queues s =
      (n : String) (q : QueueRuntime)
      → lookup n queues ≡ some q
      → (q.name ≡ n) × Runtime.Sound laws (q, s)

  -- All but the bindings.
  pub record Settled (b : Broker W) : Type 0 where
    pub room : 0 < pos_part b.cfg.queue_size
    pub runtimes : Runtimes b.queues b.shared
    pub agrees : Agrees (replay (laws.log b.shared.wal)) b.queues b.exchanges
    pub default_queue : has default_queue_name b.queues ≡ true
    pub default_exchange : has default_exchange_name b.exchanges ≡ true

  pub record Sound (b : Broker W) : Type 0 where
    pub settled : Settled b
    pub open settled use *
    pub are_bound : AreBound b.queues b.exchanges

  -- A runtime is sound for any log that has the same messages of its queue.
  pub carry :
      {q : QueueRuntime} {s s' : Shared W} (n : String)
      → pending (laws.log s'.wal) n ≡ pending (laws.log s.wal) n
      → (q.name ≡ n) × Runtime.Sound laws (q, s)
      → (q.name ≡ n) × Runtime.Sound laws (q, s')
  carry {q} {s} {s'} n same (named, t) = (
    named,
    record {
      inv = t.inv;
      durable = record {
        same = rw (named, same) (rw named at t.durable.same);
        distinct = t.durable.distinct;
      };
    },
  )

  module _ (queues : Map QueueRuntime) {s s' : Shared W} (t : Runtimes queues s) where
    pub Runtimes-log :
        ((n : String) → pending (laws.log s'.wal) n ≡ pending (laws.log s.wal) n)
        → Runtimes queues s'
    Runtimes-log same n q e = carry n (same n) (t n q e)

    module _ (name : String)
        (others : (n : String)
          → n ≢ name
          → pending (laws.log s'.wal) n ≡ pending (laws.log s.wal) n) where
      pub Runtimes-insert :
          (q' : QueueRuntime)
          → q'.name ≡ name
          → Runtime.Sound laws (q', s')
          → Runtimes (insert name q' queues) s'
      Runtimes-insert q' named t' n q e = elim (text_cases name n) [
        | inl (h, p) ↦
            let same : some q' ≡ some q = rw (lookup-insert, h) at e in
            subst (λ (r : QueueRuntime). (r.name ≡ n) × Runtime.Sound laws (r, s'))
              (some-injective q' q same) (named ∙ p, t')
        | inr (h, p) ↦ carry n (others n (λ k. p (sym k))) (t n q (rw (lookup-insert, h) at e))
      ]

      pub Runtimes-delete : Runtimes (delete name queues) s'
      Runtimes-delete n q e = elim (text_cases name n) [
        | inl (h, p) ↦ cc (rw (lookup-delete, h) at e)
        | inr (h, p) ↦ carry n (others n (λ k. p (sym k))) (t n q (rw (lookup-delete, h) at e))
      ]

module _ {W : Type 0} ⦃wal : Wal W⦄ where
  -- The two ends of an Append.
  pub log_then_cases {ℓ} :
      (P : Outcome W → Type ℓ) (b : Broker W) (r : Record) (next : Broker W → Outcome W)
      → let (w, ok) = wal.append b.shared.wal r in
        (ok ≡ true → P (next (with_log b w)))
        → (ok ≡ false → P (with_log b w, some err_wal_append))
        → P (log_then b r next)
  unfolding log_then
  log_then_cases P b r next f g = if_cases P _ f g
