-- ===== src/Examples/Broker.antt =====
-- Runs of a broker.
use dsend.Base.{subst, sym, none, some, List, ◌≡◌, ◌≢◌, ◌⊎◌, refl, arith, lookup, insert}
use dsend.Model.{Record}
use dsend.Storage.{RecoveredState, replay}
use dsend.Engine.{err_wal_append}
use dsend.Exchange.{new_exchange_factory, bind, check_binding_exists}
use dsend.Engine.Broker.{Broker, Outcome, new_in_memory_broker, log_then}
use dsend.Engine.Broker.Names.{
  validate_binding_key, validate_exchange_name, validate_exchange_type, validate_queue_name,
}
use dsend.Engine.Broker.Queues.{create_queue, queue_added}
use dsend.Engine.Broker.Exchanges.{create_exchange, bind_queue, rebind}
use dsend.Engine.Broker.Sound.{Sound}
use dsend.Engine.Broker.Steps.{
  Reach, here, next, creates_queue, creates_exchange, binds, broker-Sound,
}
use dsend.Engine.Broker.Restorable.Reached.{Reach-AreRestorable}
use dsend.Engine.Broker.Startup.{new_broker, with_queues, with_default_queue, restore_queues}
use dsend.Engine.Broker.Startup.First.{first, first-Sound, first-AreRestorable}
use dsend.Engine.Broker.Startup.Recovered.{replay-Loads, Recovered}
use dsend.Engine.Broker.Startup.Restart.{restart}
use dsend.Examples.{list_wal, list_wal-IsWal, small_config, empty_shared}

abbrev pub Run : Type 0
Run = Broker (List Record)

abbrev pub started : Run
started = first list_wal-IsWal small_config empty_shared

pub started-Sound : Sound list_wal-IsWal started
unfolding list_wal-IsWal
started-Sound = first-Sound list_wal-IsWal small_config empty_shared (omega arith) refl

abbrev pub with_queue : Run
with_queue = (create_queue started "orders").0

abbrev pub with_exchange : Run
with_exchange = (create_exchange with_queue "news" "topic").0

abbrev pub binding : Outcome (List Record)
binding = bind_queue with_exchange "news" "orders" "orders.#"

binding_fine : binding.1 ≡ none
unfolding with_queues new_in_memory_broker with_default_queue restore_queues lookup insert
    create_queue create_exchange bind_queue rebind bind check_binding_exists log_then list_wal
    queue_added new_exchange_factory validate_binding_key validate_exchange_name
    validate_exchange_type validate_queue_name
binding_fine = refl

binding_logged : binding.1 ≢ some err_wal_append
binding_logged = subst (λ err. err ≢ some err_wal_append) (sym binding_fine) (λ e. cc e)

pub reaching : Reach started binding.0
reaching =
    next
      (next (next here (creates_queue started "orders"))
        (creates_exchange with_queue "news" "topic"))
      (binds with_exchange "news" "orders" "orders.#" binding_logged)

broker-Sound_example : Sound list_wal-IsWal binding.0
broker-Sound_example = broker-Sound list_wal-IsWal started-Sound reaching

abbrev loaded : RecoveredState
loaded = replay (list_wal-IsWal.log binding.0.shared.wal)

restart_example :
    (o : Outcome (List Record)) × (new_broker small_config binding.0.shared (some loaded) ≡ some o)
    × ((o.1 ≡ some err_wal_append) ⊎ Recovered list_wal-IsWal binding.0 o)
restart_example =
    restart list_wal-IsWal binding.0 (broker-Sound list_wal-IsWal started-Sound reaching)
      (Reach-AreRestorable reaching (first-AreRestorable list_wal-IsWal small_config empty_shared))
      small_config (omega arith) binding.0.shared refl loaded
      (replay-Loads (list_wal-IsWal.log binding.0.shared.wal))
