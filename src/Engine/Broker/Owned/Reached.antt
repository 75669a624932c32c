-- ===== src/Engine/Broker/Owned/Reached.antt =====
-- Every step of the broker keeps the owners.
use mathlib.Core.Option.{some-injective}
use text.Mathlib.TextPositions.{eq_refl}
use dsend.Base.{
  String, true, not, ◌||◌, none, some, List, [], ◌∷◌, ◌≡◌, refl, ap, subst, ◌∙◌, inl, inr, keys,
  lookup, insert, delete, lookup-insert, lookup-delete, text_cases, if_cases, Option-cases,
}
use dsend.Model.{Record, default_queue_name}
use dsend.Inflight
use dsend.Inflight.{new_manager}
use dsend.Storage.{Wal, IsWal}
use dsend.Engine.{Config, Shared}
use dsend.Engine.QueueRuntime.{QueueRuntime, close_if_empty, set_token_hooks, new_queue_runtime}
use dsend.Engine.QueueRuntime.Steps.{core-close_if_empty}
use dsend.Engine.QueueRuntime.Owners.{Owns, quiet}
use dsend.Engine.QueueRuntime.Owners.Carried.{Step-Carries}
use dsend.Engine.Broker.{
  Broker, Outcome, put_queue, with_log, new_runtime, start_queue, new_in_memory_broker,
}
use dsend.Engine.Broker.Names.{validate_queue_name}
use dsend.Engine.Broker.Queues.{
  create_queue, queue_added, queue_created_record, queue_deleted_record, loop_ended, delete_closed,
  delete_queue,
}
use dsend.Engine.Broker.Messages.{start, start_all, shutdown}
use dsend.Engine.Broker.Owned.{
  IsOwned, Same, Same-trans, itself, Same-IsOwned, put-IsOwned, delete-IsOwned, dropped-IsOwned,
}
use dsend.Engine.Broker.Owned.Unchanged.{
  unbind_everywhere-Same, bind_queue-Same, unbind_queue-Same, create_exchange-Same,
  delete_exchange-Same,
}
use dsend.Engine.Broker.Sound.{Sound, log_then_cases}
use dsend.Engine.Broker.Startup.{with_queues, with_default_queue, restore_queues}
use dsend.Engine.Broker.Startup.First.{first}
use dsend.Engine.Broker.Steps.{
  Step, Reach, here, next, creates_queue, deletes_queue, creates_exchange, deletes_exchange, binds,
  unbinds, starts, shuts_down, works, broker-Sound,
}

module _ {W : Type 0} ⦃wal : Wal W⦄ where
  -- A record more in the log, or a refusal.
  logged-IsOwned :
      (b : Broker W) (r : Record) → IsOwned b → IsOwned (with_log b (wal.append b.shared.wal r).0)
  logged-IsOwned b r o =
      Same-IsOwned {b = b} {c = with_log b (wal.append b.shared.wal r).0}
        (record { queues = refl; owners = refl; closed = refl }) o

  new_runtime-Owns :
      (cfg : Config) (name : String) (s : Shared W) → Owns name (new_runtime cfg name [], s)
  unfolding new_runtime set_token_hooks new_queue_runtime new_manager Inflight.get lookup
  new_runtime-Owns cfg name s = record {
    registered = refl;
    removed = refl;
    owned = λ token item e. cc e;
  }

  queue_added-IsOwned : (b : Broker W) (name : String) → IsOwned b → IsOwned (queue_added b name)
  unfolding queue_added start_queue
  queue_added-IsOwned b name o = if_cases IsOwned b.started (λ _. added) (λ _. added)
    where
      added : IsOwned (put_queue b name (new_runtime b.cfg name []))
      added is_open n q e = elim (text_cases name n) [
        | inl (h, p) ↦
            subst (λ (k : QueueRuntime). Owns n (k, b.shared))
              (some-injective _ q (rw (lookup-insert, h) at e))
              (subst (λ (k : String). Owns k (new_runtime b.cfg name [], b.shared)) p
                (new_runtime-Owns b.cfg name b.shared))
        | inr (h, _) ↦ o is_open n q (rw (lookup-insert, h) at e)
      ]

  create_queue-IsOwned :
      (b : Broker W) (name : String) → IsOwned b → IsOwned (create_queue b name).0
  unfolding create_queue
  create_queue-IsOwned b name o = elim (Option-cases (validate_queue_name name)) [
    | inr (err, e) ↦ rw (e, create_queue) o
    | inl e ↦
        rw (e, create_queue)
          (if_cases (λ (r : Outcome W). IsOwned r.0) b.closed (λ _. o)
            (λ _. elim (Option-cases (lookup name b.queues)) [
              | inr (q, old) ↦ rw old o
              | inl new ↦ rw new (
                  log_then_cases (λ r. IsOwned r.0) b (queue_created_record name) _
                    (λ _.
                      queue_added-IsOwned _ name (logged-IsOwned b (queue_created_record name) o))
                    (λ _. logged-IsOwned b (queue_created_record name) o))
            ]))
  ]

  loop_ended-IsOwned :
      (retired : List QueueRuntime) (name : String) (runtime : QueueRuntime) (o : Outcome W)
      → lookup name o.0.queues ≡ none
      → IsOwned o.0
      → IsOwned (loop_ended retired name runtime o).0
  unfolding loop_ended
  loop_ended-IsOwned retired name runtime (b, some err) gone h = h
  loop_ended-IsOwned retired name runtime (b, none) gone h =
      dropped-IsOwned (record b { retired = retired }) name runtime gone h

  delete_closed-IsOwned :
      (b : Broker W) (name : String) (q : QueueRuntime) (order : List String → List String)
      → lookup name b.queues ≡ some q
      → IsOwned b
      → IsOwned (delete_closed b name (close_if_empty q).0 order).0
  unfolding delete_closed
  delete_closed-IsOwned b name q order found o =
      let q' = (close_if_empty q).0 in
      let put : IsOwned (put_queue b name q') =
        put-IsOwned b (put_queue b name q') name q q' refl refl found
          (quiet name q q' b.shared (core-close_if_empty q)) o in
      log_then_cases (λ r. IsOwned r.0) (put_queue b name q') (queue_deleted_record name) _
        (λ _.
          let w = (wal.append b.shared.wal (queue_deleted_record name)).0 in
          let b' : Broker W = record (put_queue b name q') {
            shared = record b.shared { wal = w };
            queues = delete name (insert name q' b.queues);
            retired = q' ∷ b.retired;
          } in
          let same = unbind_everywhere-Same (order (keys b.exchanges)) b' name in
          loop_ended-IsOwned b.retired name q' _
            (ap (λ m. lookup name m) same.queues
              ∙ lookup-delete name name (insert name q' b.queues)
              ∙ rw eq_refl refl)
            (Same-IsOwned same (delete-IsOwned (put_queue b name q') b' name refl refl refl put)))
        (λ _. logged-IsOwned (put_queue b name q') (queue_deleted_record name) put)

  delete_queue-IsOwned :
      (b : Broker W) (name : String) (order : List String → List String)
      → IsOwned b
      → IsOwned (delete_queue b name order).0
  unfolding delete_queue
  delete_queue-IsOwned b name order o = elim (text_cases name default_queue_name) [
    | inl (h, _) ↦ rw (h, delete_queue) o
    | inr (h, _) ↦ elim (Option-cases (lookup name b.queues)) [
      | inl e ↦ rw (h, e, delete_queue) o
      | inr (q, e) ↦
          rw (h, e, delete_queue)
            (if_cases (λ (r : Outcome W). IsOwned r.0) (not (close_if_empty q).1) (λ _. o)
              (λ _. delete_closed-IsOwned b name q order e o))
    ]
  ]

  start_all-Same : (names : List String) (b : Broker W) → Same b (start_all names b)
  unfolding start_all start_queue
  start_all-Same [] b = itself b
  start_all-Same (name ∷ names) b =
      Same-trans (record { queues = refl; owners = refl; closed = refl })
        (start_all-Same names (start_queue b name))

  start-Same : (b : Broker W) → Same b (start b)
  unfolding start
  start-Same b =
      if_cases (Same b) (b.started || b.closed) (λ _. itself b)
        (λ _.
          Same-trans (record { queues = refl; owners = refl; closed = refl })
            (start_all-Same (keys b.queues) (record b { started = true })))

  -- A broker that is shut down promises nothing.
  shutdown-IsOwned : (b : Broker W) → IsOwned b → IsOwned (shutdown b)
  unfolding shutdown
  shutdown-IsOwned b o = if_cases IsOwned b.closed (λ _. o) (λ _ is_open. cc is_open)

  module _ (laws : IsWal wal) where
    Step-IsOwned : {b c : Broker W} → Step b c → Sound laws b → IsOwned b → IsOwned c
    Step-IsOwned (creates_queue b name) t o = create_queue-IsOwned b name o
    Step-IsOwned (deletes_queue b name order shuffles logged) t o =
        delete_queue-IsOwned b name order o
    Step-IsOwned (creates_exchange b name type) t o =
        Same-IsOwned (create_exchange-Same b name type) o
    Step-IsOwned (deletes_exchange b name) t o = Same-IsOwned (delete_exchange-Same b name) o
    Step-IsOwned (binds b name queue_name key logged) t o =
        Same-IsOwned (bind_queue-Same b name queue_name key) o
    Step-IsOwned (unbinds b name queue_name key logged) t o =
        Same-IsOwned (unbind_queue-Same b name queue_name key) o
    Step-IsOwned (starts b) t o = Same-IsOwned (start-Same b) o
    Step-IsOwned (shuts_down b) t o = shutdown-IsOwned b o
    Step-IsOwned (works b name q q' s' e st) t o =
        put-IsOwned b (put_queue (record b { shared = s' }) name q') name q q' refl refl e
          (Step-Carries name st (t.runtimes name q e).1.inv) o

    pub Reach-IsOwned : {b c : Broker W} → Sound laws b → IsOwned b → Reach b c → IsOwned c
    Reach-IsOwned t o here = o
    Reach-IsOwned t o (next r st) = Step-IsOwned st (broker-Sound laws t r) (Reach-IsOwned t o r)

    -- A broker that starts from an empty log.
    pub first-IsOwned : (cfg : Config) (shared : Shared W) → IsOwned (first laws cfg shared)
    unfolding with_queues new_in_memory_broker with_default_queue restore_queues lookup insert
    first-IsOwned cfg shared is_open n q e = elim (text_cases default_queue_name n) [
      | inl (h, p) ↦
          subst (λ (k : QueueRuntime). Owns n (k, shared)) (some-injective _ q (rw h at e))
            (subst (λ (k : String). Owns k (new_runtime cfg default_queue_name [], shared)) p
              (new_runtime-Owns cfg default_queue_name shared))
      | inr (h, _) ↦ cc (rw h at e)
    ]
