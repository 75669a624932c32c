-- ===== src/Examples/Deleted.antt =====
-- A queue with a binding is deleted.
use mathlib.Core.List.Permᴰ
use dsend.Base.{false, none, some, List, ◌≡◌, refl, lookup, insert, delete}
use dsend.Model.{Record}
use dsend.Queue.RingBuffer as Ring
use dsend.Inflight
use dsend.Exchange.{new_exchange_factory, bind, unbind, check_binding_exists, has_binding}
use dsend.Engine.QueueRuntime.{close_if_empty, new_queue_runtime, set_token_hooks}
use dsend.Engine.Broker.{Outcome, new_runtime, new_in_memory_broker, log_then}
use dsend.Engine.Broker.Names.{
  validate_binding_key, validate_exchange_name, validate_exchange_type, validate_queue_name,
}
use dsend.Engine.Broker.Queues.{
  create_queue, queue_added, delete_queue, delete_closed, loop_ended, queue_dropped,
  unbind_everywhere, unbind_round, unbind_logged,
}
use dsend.Engine.Broker.Exchanges.{create_exchange, bind_queue, rebind}
use dsend.Engine.Broker.Sound.{Sound}
use dsend.Engine.Broker.Steps.{broker-Sound}
use dsend.Engine.Broker.Deleted.{delete_queue_lem}
use dsend.Engine.Broker.Startup.{with_queues, with_default_queue, restore_queues}
use dsend.Examples.{list_wal, list_wal-IsWal}
use dsend.Examples.Broker.{started-Sound, binding, reaching}
use dsend.Examples.Publishing.{news}

abbrev deleted : Outcome (List Record)
deleted = delete_queue binding.0 "orders" (λ names. names)

deleted_fine : deleted.1 ≡ none
unfolding with_queues new_in_memory_broker with_default_queue restore_queues lookup insert
    create_queue create_exchange bind_queue rebind bind check_binding_exists log_then list_wal
    queue_added new_exchange_factory validate_binding_key validate_exchange_name
    validate_exchange_type validate_queue_name delete_queue delete_closed close_if_empty loop_ended
    unbind_everywhere unbind_round unbind_logged unbind has_binding delete new_runtime
    set_token_hooks new_queue_runtime Ring.size Ring.new_ring_buffer_queue Inflight.size
    Inflight.new_manager
deleted_fine = refl

news_left : lookup "news" deleted.0.exchanges ≡ some (unbind news "" "orders").0
unfolding with_queues new_in_memory_broker with_default_queue restore_queues lookup insert
    create_queue create_exchange bind_queue rebind bind check_binding_exists log_then list_wal
    queue_added new_exchange_factory validate_binding_key validate_exchange_name
    validate_exchange_type validate_queue_name delete_queue delete_closed close_if_empty loop_ended
    unbind_everywhere unbind_round unbind_logged unbind has_binding delete new_runtime
    set_token_hooks new_queue_runtime Ring.size Ring.new_ring_buffer_queue Inflight.size
    Inflight.new_manager queue_dropped
news_left = refl

delete_queue_lem_example :
    Sound list_wal-IsWal deleted.0
    × (lookup "orders" deleted.0.queues ≡ none)
    × (has_binding (unbind news "" "orders").0.bindings "" "orders" ≡ false)
delete_queue_lem_example =
    delete_queue_lem "orders" list_wal-IsWal binding.0 (λ names. names)
      (broker-Sound list_wal-IsWal started-Sound reaching) (λ names. Permᴰ.refl names) deleted_fine
      "news" (unbind news "" "orders").0 news_left
