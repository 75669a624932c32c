-- ===== src/Engine/Broker/Startup.antt =====
-- broker.go: NewBroker, which builds a broker from the log.
pub mod Queues
pub mod Restoring
pub mod Loops
pub mod Exchanges
pub mod First
pub mod Recovered
pub mod Restart
pub mod Dangling
use dsend.Base.{String, Option, none, some, List, [], ◌∷◌, Map, lookup, insert}
use dsend.Model.{Message, Binding, default_queue_name, default_exchange_name}
use dsend.Storage.{Wal, ExchangeState, RecoveredState}
use dsend.Engine.{Config, Error, err_binding_already_exist, Shared}
use dsend.Engine.QueueRuntime.{QueueRuntime}
use dsend.Engine.Broker.{Broker, Outcome, new_in_memory_broker, new_runtime}
use dsend.Engine.Broker.Exchanges.{create_exchange, bind_queue}

-- the loop over PendingMessages
unfoldable pub restore_queues : Config → Map (List Message) → Map QueueRuntime → Map QueueRuntime
restore_queues cfg [] queues = queues
restore_queues cfg ((name, messages) ∷ rest) queues =
    restore_queues cfg rest (insert name (new_runtime cfg name messages) queues)

-- the default queue, if the log does not have it
unfoldable pub with_default_queue : Config → Map QueueRuntime → Map QueueRuntime
with_default_queue cfg queues = elim (lookup default_queue_name queues) [
  | some _ ↦ queues
  | none ↦ insert default_queue_name (new_runtime cfg default_queue_name []) queues
]

-- `errors.Is(err, exchange.ErrBindingAlreadyExist)`
abbrev pub forgive_bound : Option Error → Option Error
forgive_bound (some err_binding_already_exist) = none
forgive_bound err = err

module _ {W : Type 0} ⦃wal : Wal W⦄ where
  -- the loop over the bindings of an exchange
  unfoldable pub restore_bindings : String → List Binding → Broker W → Outcome W
  restore_bindings exchange_name [] b = (b, none)
  restore_bindings exchange_name (binding ∷ bindings) b =
      let (b', err) = bind_queue b exchange_name binding.queue_name binding.binding_key in
      elim err [ some e ↦ (b', some e) | none ↦ restore_bindings exchange_name bindings b' ]

  -- one round of the loop over PendingExchanges
  unfoldable pub restore_exchange : String → ExchangeState → Broker W → Outcome W
  restore_exchange name state b =
      let (b', err) = create_exchange b name state.exchange_type in
      elim err [ some e ↦ (b', some e) | none ↦ restore_bindings name state.bindings b' ]

  unfoldable pub restore_exchanges : Map ExchangeState → Broker W → Outcome W
  restore_exchanges [] b = (b, none)
  restore_exchanges ((name, state) ∷ rest) b =
      let (b', err) = restore_exchange name state b in
      elim err [ some e ↦ (b', some e) | none ↦ restore_exchanges rest b' ]

  -- the broker that the two loops over exchanges start from
  unfoldable pub with_queues : Config → Shared W → Map (List Message) → Broker W
  with_queues cfg shared pending =
      new_in_memory_broker cfg shared (with_default_queue cfg (restore_queues cfg pending []))

  -- The end of NewBroker: the default queue is bound, if it is not yet.
  unfoldable pub bind_default : Outcome W → Outcome W
  bind_default (b, some err) = (b, some err)
  bind_default (b, none) =
      let (b', err) = bind_queue b default_exchange_name default_queue_name default_queue_name in
      (b', forgive_bound err)

  -- NewBroker, with what `wal.Load` returned; the maps of the state are in the order of their ranges.
  -- `none` is a failed Load.
  unfoldable pub new_broker : Config → Shared W → Option RecoveredState → Option (Outcome W)
  new_broker cfg shared none = none
  new_broker cfg shared (some state) = some (
      bind_default
        (restore_exchanges state.pending_exchanges (with_queues cfg shared state.pending_messages)))
