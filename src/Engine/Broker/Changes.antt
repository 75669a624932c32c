-- ===== src/Engine/Broker/Changes.antt =====
-- Each method of the broker that changes its queues, its exchanges or its bindings keeps it sound, unless
-- the log refuses a record.
use mathlib.Core.List.{Nodup-nil}
use dsend.Base.{
  ◌<◌, max, pos_part, length, String, true, false, none, List, [], ◌∷◌, ◌++◌, ◌≡◌, ◌≢◌, refl, ap,
  subst, ◌∙◌, arith, inl, inr, Map, lookup, has, has-insert, has-none, none_of_has, if_cases,
  Option-cases, All-map,
}
use dsend.Model.{Message, Record, default_queue_name, default_exchange_name}
use dsend.Storage.{Wal, IsWal, replay, pending, pending_of, apply_record}
use dsend.Storage.Pending.{replay-append}
use dsend.Storage.Topology.{messages-created, messages-created_self}
use dsend.Exchange.{Exchange}
use dsend.Engine.{Config, Shared}
use dsend.Engine.QueueRuntime.{set_token_hooks}
use dsend.Engine.QueueRuntime.Sound as Runtime
use dsend.Engine.QueueRuntime.Recovery.{restarted, restarted_lem, restarted-Sound}
use dsend.Engine.Broker.{Broker, Outcome, new_runtime, put_queue, with_log, start_queue}
use dsend.Engine.Broker.Names.{validate_queue_name}
use dsend.Engine.Broker.Queues.{queue_created_record, queue_added, create_queue}
use dsend.Engine.Broker.Agrees.{Agrees, created-Agrees}
use dsend.Engine.Broker.Sound.{Settled, Sound, Runtimes-log, Runtimes-insert, log_then_cases}

pub name-new_runtime :
    (cfg : Config) (name : String) (messages : List Message)
    → 0 < max (pos_part cfg.queue_size) (length messages)
    → (new_runtime cfg name messages).name ≡ name
unfolding new_runtime set_token_hooks
name-new_runtime cfg name messages room = (restarted_lem name cfg messages room).3

module _ {W : Type 0} ⦃wal : Wal W⦄ (laws : IsWal wal) where
  -- the hooks are no part of what `Sound` says
  pub new_runtime-Sound :
      (cfg : Config) (name : String) (messages : List Message) (s : Shared W)
      → Runtime.Sound laws (restarted name cfg messages, s)
      → Runtime.Sound laws (new_runtime cfg name messages, s)
  unfolding new_runtime set_token_hooks
  new_runtime-Sound cfg name messages s t = record {
    inv = record {
      ring = t.inv.ring;
      flight = t.inv.flight;
      balance = t.inv.balance;
      dead_letters = t.inv.dead_letters;
    };
    durable = t.durable;
  }

  -- What two logs that differ by a record have pending.
  pub same_pending :
      (b : Broker W) (r : Record) (n : String)
      → lookup n (apply_record (replay (laws.log b.shared.wal)) r).pending_messages
        ≡ lookup n (replay (laws.log b.shared.wal)).pending_messages
      → pending (laws.log b.shared.wal ++ r ∷ []) n ≡ pending (laws.log b.shared.wal) n
  unfolding pending pending_of
  same_pending b r n e = rw (pending, replay-append, pending_of, e) refl

  start_queue-Sound :
      {b : Broker W} (name : String) → Sound laws b → Sound laws (start_queue b name)
  unfolding start_queue
  start_queue-Sound name t = record {
    settled = record {
      room = t.room;
      runtimes = t.runtimes;
      agrees = t.agrees;
      default_queue = t.default_queue;
      default_exchange = t.default_exchange;
    };
    are_bound = t.are_bound;
  }

  module _ {b : Broker W} (t : Sound laws b) where
    -- After a failed Append.
    pub unlogged :
        (r : Record)
        → (wal.append b.shared.wal r).1 ≡ false
        → Sound laws (with_log b (wal.append b.shared.wal r).0)
    unlogged r failed =
        let same = laws.append_failed b.shared.wal r failed in
        record {
          settled = record {
            room = t.room;
            runtimes = Runtimes-log laws b.queues t.runtimes (λ n. ap (λ l. pending l n) same);
            agrees = rw same t.agrees;
            default_queue = t.default_queue;
            default_exchange = t.default_exchange;
          };
          are_bound = t.are_bound;
        }

    module _ (name : String) (new : lookup name b.queues ≡ none) where
      not_default : name ≢ default_queue_name
      not_default p = cc (t.default_queue, has-none name b.queues new, ap (λ k. has k b.queues) p)

      unknown : lookup name (replay (laws.log b.shared.wal)).pending_messages ≡ none
      unknown =
          none_of_has name _ (t.agrees.queues_logged name not_default ∙ has-none name b.queues new)

      no_messages : pending (laws.log b.shared.wal ++ queue_created_record name ∷ []) name ≡ []
      unfolding pending pending_of
      no_messages =
          rw
            (
              pending,
              replay-append,
              pending_of,
              messages-created_self (replay (laws.log b.shared.wal)) (queue_created_record name)
                  refl unknown,
            )
            refl

      created_runtime :
          (w : W)
          → laws.log w ≡ laws.log b.shared.wal ++ queue_created_record name ∷ []
          → Runtime.Sound laws (new_runtime b.cfg name [], record b.shared { wal = w })
      created_runtime w e =
          let empty : pending (laws.log w) name ≡ [] = rw e no_messages in
          new_runtime-Sound b.cfg name [] _ (
            subst (λ ms. Runtime.Sound laws (restarted name b.cfg ms, record b.shared { wal = w }))
              empty
              (restarted-Sound laws name (record b.shared { wal = w }) b.cfg t.room
                (rw empty Nodup-nil)))

      queue_added-Sound :
          (wal.append b.shared.wal (queue_created_record name)).1 ≡ true
          → Sound laws (
              queue_added (with_log b (wal.append b.shared.wal (queue_created_record name)).0) name)
      unfolding queue_added
      queue_added-Sound done =
          let w = (wal.append b.shared.wal (queue_created_record name)).0 in
          let e = laws.append_ok b.shared.wal (queue_created_record name) done in
          let more = λ (n : String). has-insert name n (new_runtime b.cfg name []) b.queues in
          let base : Sound laws (put_queue (with_log b w) name (new_runtime b.cfg name [])) =
            record {
              settled = record {
                room = t.room;
                runtimes =
                    Runtimes-insert laws b.queues t.runtimes name
                      (λ n ne. rw e (
                        same_pending b (queue_created_record name) n (
                          messages-created (replay (laws.log b.shared.wal))
                            (queue_created_record name) refl n ne)))
                      (new_runtime b.cfg name [])
                      (name-new_runtime b.cfg name [] (omega (arith, t.room)))
                      (created_runtime w e);
                agrees =
                    rw (e, replay-append)
                      (created-Agrees t.agrees (queue_created_record name)
                        (new_runtime b.cfg name []) refl);
                default_queue = ground (arith, more default_queue_name, t.default_queue);
                default_exchange = t.default_exchange;
              };
              are_bound = λ x ex found.
                  All-map _ _ ex.bindings (λ binding h. ground (arith, more binding.queue_name))
                    (t.are_bound x ex found);
            } in
          if_cases (Sound laws) b.started (λ _. start_queue-Sound name base) (λ _. base)

    -- CreateQueue keeps the broker sound, whatever it returns.
    pub create_queue-Sound : (name : String) → Sound laws (create_queue b name).0
    unfolding create_queue
    create_queue-Sound name = elim (Option-cases (validate_queue_name name)) [
      | inr (err, e) ↦ rw (e, create_queue) t
      | inl e ↦
          rw (e, create_queue)
            (if_cases (λ (r : Outcome W). Sound laws r.0) b.closed (λ _. t)
              (λ _. elim (Option-cases (lookup name b.queues)) [
                | inr (q, old) ↦ rw old t
                | inl new ↦ rw new (
                    log_then_cases (λ r. Sound laws r.0) b (queue_created_record name) _
                      (queue_added-Sound name new) (unlogged _))
              ]))
    ]

  module _ {b : Broker W} (t : Settled laws b) (r : Record) {exchanges : Map Exchange}
      (messages : (apply_record (replay (laws.log b.shared.wal)) r).pending_messages
        ≡ (replay (laws.log b.shared.wal)).pending_messages)
      (agrees : Agrees (apply_record (replay (laws.log b.shared.wal)) r) b.queues exchanges) where
    -- After a record that changes the exchanges alone.
    pub exchanges-Settled :
        (wal.append b.shared.wal r).1 ≡ true
        → has default_exchange_name exchanges ≡ true
        → Settled laws (record (with_log b (wal.append b.shared.wal r).0) { exchanges = exchanges })
    exchanges-Settled done default_exchange =
        let e = laws.append_ok b.shared.wal r done in
        record {
          room = t.room;
          runtimes =
              Runtimes-log laws b.queues t.runtimes
                (λ n. rw e (same_pending b r n (ap (λ m. lookup n m) messages)));
          agrees = rw (e, replay-append) agrees;
          default_queue = t.default_queue;
          default_exchange = default_exchange;
        }
