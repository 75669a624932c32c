-- ===== src/Engine/Broker/Startup/First.antt =====
-- The first start of a broker, from an empty log.
use mathlib.Core.List.{Nodup-nil}
use mathlib.Core.Option.{some-injective}
use dsend.Base.{
  ◌<◌, pos_part, [], ◌≡◌, refl, sym, subst, arith, inl, inr, lookup, has, insert, str_eq_of_ne,
  text_cases, All,
}
use dsend.Model.{default_queue_name, default_exchange_name}
use dsend.Storage.{Wal, IsWal, replay, replay_from, pending, pending_of}
use dsend.Exchange.{Exchange, new_exchange_factory}
use dsend.Engine.{Config, Shared}
use dsend.Engine.QueueRuntime.{QueueRuntime}
use dsend.Engine.QueueRuntime.Sound as Runtime
use dsend.Engine.QueueRuntime.Recovery.{restarted, restarted-Sound}
use dsend.Engine.Broker.{Broker, new_in_memory_broker}
use dsend.Engine.Broker.Sound.{LeadsTo, Sound}
use dsend.Engine.Broker.Changes.{new_runtime-Sound, name-new_runtime}
use dsend.Engine.Broker.Restorable.{AreRestorable, IsRestorable}
use dsend.Engine.Broker.Startup.{with_queues, with_default_queue, restore_queues}
use dsend.Engine.Broker.Startup.Restoring.{fresh_default}

module _ {W : Type 0} ⦃wal : Wal W⦄ (laws : IsWal wal) (cfg : Config) (shared : Shared W) where
  -- The broker of a log that is empty.
  abbrev pub first : Broker W
  first = with_queues cfg shared []

  nothing_pending : laws.log shared.wal ≡ [] → pending (laws.log shared.wal) default_queue_name ≡ []
  unfolding pending pending_of replay lookup
  nothing_pending empty = rw empty refl

  pub first-Sound : 0 < pos_part cfg.queue_size → laws.log shared.wal ≡ [] → Sound laws first
  unfolding with_queues new_in_memory_broker with_default_queue restore_queues lookup insert replay
      replay_from new_exchange_factory
  first-Sound room empty = record {
    settled = record {
      room = room;
      runtimes = λ n q e. elim (text_cases default_queue_name n) [
        | inl (h, p) ↦
            subst (λ (r : QueueRuntime). (r.name ≡ n) × Runtime.Sound laws (r, shared))
              (some-injective _ q (rw h at e))
              (rw (← p) (
                name-new_runtime cfg default_queue_name [] (omega (arith, room)),
                new_runtime-Sound laws cfg default_queue_name [] shared (
                    subst (λ ms. Runtime.Sound laws (restarted default_queue_name cfg ms, shared))
                      (nothing_pending empty)
                      (restarted-Sound laws default_queue_name shared cfg room
                        (rw (nothing_pending empty) Nodup-nil))),
              ))
        | inr (h, _) ↦ cc (rw h at e)
      ];
      agrees = record {
        queues_logged = λ n ne. rw (empty, has, str_eq_of_ne (λ p. ne (sym p))) refl;
        exchanges_logged =
            λ x ne. rw (empty, replay_from, lookup, str_eq_of_ne (λ p. ne (sym p))) refl;
        default_unlogged = rw empty refl;
      };
      default_queue = refl;
      default_exchange = refl;
    };
    are_bound = λ x e found. elim (text_cases default_exchange_name x) [
      | inl (h, _) ↦
          subst (λ (ex : Exchange). All (LeadsTo first.queues) ex.bindings)
            (some-injective fresh_default e (rw h at found)) tt
      | inr (h, _) ↦ cc (rw h at found)
    ];
  }

  pub first-AreRestorable : AreRestorable first.exchanges
  unfolding with_queues new_in_memory_broker lookup new_exchange_factory
  first-AreRestorable x e found = elim (text_cases default_exchange_name x) [
    | inl (h, p) ↦
        subst (λ (ex : Exchange). IsRestorable x ex)
          (some-injective fresh_default e (rw h at found))
          (record { named = λ ne. absurd (ne (sym p)); keyed = tt; fresh = tt })
    | inr (h, _) ↦ cc (rw h at found)
  ]
