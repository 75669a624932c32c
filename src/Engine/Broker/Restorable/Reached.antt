-- ===== src/Engine/Broker/Restorable/Reached.antt =====
-- Every step of the broker keeps its exchanges such that they can be built again.
use dsend.Base.{
  String, not, ◌||◌, none, some, List, [], ◌∷◌, inl, inr, keys, lookup, text_cases, if_cases,
  Option-cases,
}
use dsend.Model.{default_queue_name}
use dsend.Storage.{Wal}
use dsend.Engine.QueueRuntime.{QueueRuntime, close_if_empty}
use dsend.Engine.Broker.{Broker, Outcome, put_queue, start_queue}
use dsend.Engine.Broker.Queues.{
  queue_deleted_record, queue_dropped, loop_ended, unbind_round, unbind_everywhere, delete_closed,
  delete_queue,
}
use dsend.Engine.Broker.Messages.{start, start_all, shutdown}
use dsend.Engine.Broker.Sound.{log_then_cases}
use dsend.Engine.Broker.Steps.{
  Step, creates_queue, deletes_queue, creates_exchange, deletes_exchange, binds, unbinds, starts,
  shuts_down, works, Reach, here, next,
}
use dsend.Engine.Broker.Restorable.{
  AreRestorable, Keeps, created, exchange_created, exchange_deleted, bound, unbound, round,
}

module _ {W : Type 0} ⦃wal : Wal W⦄ where
  loop :
      (xs : List String) (b : Broker W) (name : String)
      → AreRestorable b.exchanges
      → Keeps (unbind_everywhere xs b name)
  unfolding unbind_everywhere
  loop [] b name t = t
  loop (x ∷ xs) b name t = elim (Option-cases (unbind_round b x name).1) [
    | inl e ↦ rw (e, unbind_everywhere) (loop xs _ name (round b t x name))
    | inr (err, e) ↦ rw (e, unbind_everywhere) (round b t x name)
  ]

  ended :
      (retired : List QueueRuntime) (name : String) (q : QueueRuntime) (o : Outcome W)
      → Keeps o
      → Keeps (loop_ended retired name q o)
  unfolding loop_ended queue_dropped
  ended retired name q (b, none) t = t
  ended retired name q (b, some err) t = t

  deleted :
      (b : Broker W) (name : String) (order : List String → List String)
      → AreRestorable b.exchanges
      → Keeps (delete_queue b name order)
  unfolding delete_queue delete_closed
  deleted b name order t = elim (text_cases name default_queue_name) [
    | inl (h, _) ↦ rw (h, delete_queue) t
    | inr (h, _) ↦ elim (Option-cases (lookup name b.queues)) [
      | inl e ↦ rw (h, e, delete_queue) t
      | inr (q, e) ↦
          rw (h, e, delete_queue)
            (if_cases Keeps (not (close_if_empty q).1) (λ _. t)
              (λ _.
                log_then_cases Keeps (put_queue b name (close_if_empty q).0)
                  (queue_deleted_record name) _
                  (λ _. ended b.retired name (close_if_empty q).0 _ (loop _ _ name t)) (λ _. t)))
    ]
  ]

  started :
      (names : List String) (b : Broker W)
      → AreRestorable b.exchanges
      → AreRestorable (start_all names b).exchanges
  unfolding start_all start_queue
  started [] b t = t
  started (name ∷ names) b t = started names _ t

  pub Step-AreRestorable :
      {b c : Broker W} → Step b c → AreRestorable b.exchanges → AreRestorable c.exchanges
  unfolding start shutdown
  Step-AreRestorable (creates_queue b name) t = created b t name
  Step-AreRestorable (deletes_queue b name order shuffles ok) t = deleted b name order t
  Step-AreRestorable (creates_exchange b name type) t = exchange_created b t name type
  Step-AreRestorable (deletes_exchange b name) t = exchange_deleted b t name
  Step-AreRestorable (binds b name queue_name binding_key ok) t =
      bound b t name queue_name binding_key
  Step-AreRestorable (unbinds b name queue_name binding_key ok) t =
      unbound b t name queue_name binding_key
  Step-AreRestorable (starts b) t =
      if_cases (λ (c : Broker W). AreRestorable c.exchanges) (b.started || b.closed) (λ _. t)
        (λ _. started (keys b.queues) _ t)
  Step-AreRestorable (shuts_down b) t =
      if_cases (λ (c : Broker W). AreRestorable c.exchanges) b.closed (λ _. t) (λ _. t)
  Step-AreRestorable (works b name q q' s' e st) t = t

  pub Reach-AreRestorable :
      {b c : Broker W} → Reach b c → AreRestorable b.exchanges → AreRestorable c.exchanges
  Reach-AreRestorable here t = t
  Reach-AreRestorable (next r st) t = Step-AreRestorable st (Reach-AreRestorable r t)
