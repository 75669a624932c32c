-- ===== src/Engine/Broker.antt =====
-- internal/engine/mem_broker.go: the broker's state, the construction of a broker and of a runtime, and
-- what its methods share. A method holds the broker's lock from its first line to its last, or works in
-- the steps that its definition names; the children have the methods.
pub mod Names
pub mod Queues
pub mod Exchanges
pub mod Messages
pub mod Startup
pub mod Agrees
pub mod Sound
pub mod Changes
pub mod Rebound
pub mod Unbound
pub mod Deletion
pub mod Steps
pub mod Restorable
pub mod Publishing
pub mod Calls
pub mod Refused
pub mod Deleted
pub mod Owned
pub mod Acknowledged
use dsend.Base.{
  max, pos_part, String, Bool, true, false, Option, none, some, List, [], ◌∷◌, length, Map, lookup,
  insert, delete, if◌then◌else◌,
}
use dsend.Model.{Message, Record, direct_exchange, default_exchange_name}
use dsend.Queue.RingBuffer as Ring
use dsend.Queue.Dlq.{new_dlq}
use dsend.Inflight.{new_manager}
use dsend.Storage.{Wal}
use dsend.Exchange.{
  Exchange, new_exchange_factory, BindingError, binding_not_exist, binding_already_exist,
}
use dsend.Engine.{
  Config, Error, err_wal_append, err_binding_not_exist, err_binding_already_exist, Shared,
}
use dsend.Engine.QueueRuntime.{QueueRuntime, new_queue_runtime, set_token_hooks}

-- InMemoryBroker. `queues` and `token_owners` (of `shared`) hold pointers to runtimes: a runtime is told
-- by its queue's name, which no two runtimes of the map share. `running` lists the queues whose three
-- goroutines startQueue has started. `retired` keeps the runtimes that were taken out of the map, since
-- their goroutines still hold them.
pub record Broker (W : Type 0) : Type 0 where
  pub started : Bool
  pub closed : Bool
  pub cfg : Config
  pub shared : Shared W
  pub queues : Map QueueRuntime
  pub exchanges : Map Exchange
  pub running : List String
  pub retired : List QueueRuntime

-- What a method that may fail returns.
abbrev pub Outcome : Type 0 → Type 0
Outcome W = Broker W × Option Error

-- NewInMemoryBroker
unfoldable pub new_in_memory_broker : {W : Type 0} → Config → Shared W → Map QueueRuntime → Broker W
new_in_memory_broker cfg shared queues = record {
  started = false;
  closed = false;
  cfg = cfg;
  shared = shared;
  queues = queues;
  exchanges =
      (default_exchange_name, new_exchange_factory default_exchange_name direct_exchange) ∷ [];
  running = [];
  retired = [];
}

-- newQueueRuntime: `max` with the number of messages makes a negative queue size count as none.
unfoldable pub new_runtime : Config → String → List Message → QueueRuntime
new_runtime cfg name messages =
    set_token_hooks
      (new_queue_runtime name cfg messages
        (Ring.new_ring_buffer_queue (max (pos_part cfg.queue_size) (length messages))) new_dlq
        new_manager)
      (λ token owners. insert token name owners) (λ token owners. delete token owners)

module _ {W : Type 0} where
  -- startQueue
  unfoldable pub start_queue : Broker W → String → Broker W
  start_queue b name = record b { running = name ∷ b.running }

  -- a write through the pointer that the map of queues, or of exchanges, holds
  abbrev pub put_queue : Broker W → String → QueueRuntime → Broker W
  put_queue b name q = record b { queues = insert name q b.queues }

  abbrev pub put_exchange : Broker W → String → Exchange → Broker W
  put_exchange b name e = record b { exchanges = insert name e b.exchanges }

  abbrev pub with_log : Broker W → W → Broker W
  with_log b w = record b { shared = record b.shared { wal = w } }

  -- `if err := b.wal.Append(record); err != nil { return err }` and what follows it
  unfoldable pub log_then : ⦃wal : Wal W⦄ → Broker W → Record → (Broker W → Outcome W) → Outcome W
  log_then ⦃wal⦄ b r next =
      let (w, ok) = wal.append b.shared.wal r in
      if ok then next (with_log b w) else (with_log b w, some err_wal_append)

-- the errors of the exchange package, which the broker passes on
abbrev pub binding_error : BindingError → Error
binding_error binding_not_exist = err_binding_not_exist
binding_error binding_already_exist = err_binding_already_exist
