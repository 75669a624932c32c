-- ===== src/Examples/Refused.antt =====
-- A broker whose log refuses records, and a log that ends too early.
use dsend.Base.{
  ℕ, zero, suc, pos, Bool, true, false, none, some, List, [], ◌∷◌, ◌++◌, ◌≡◌, ◌≢◌, refl, lookup,
  insert,
}
use dsend.Model.{Record, default_queue_name, default_exchange_name, direct_exchange}
use dsend.Queue.RingBuffer as Ring
use dsend.Inflight
use dsend.Storage.{Wal, IsWal, replay}
use dsend.Exchange.{Exchange, new_exchange_factory, bind, check_binding_exists, has_binding}
use dsend.Engine.{Shared, err_wal_append, err_broker_closed, err_binding_already_exist}
use dsend.Engine.QueueRuntime.{QueueRuntime, close_if_empty, new_queue_runtime, set_token_hooks}
use dsend.Engine.QueueRuntime.Produce
use dsend.Engine.Broker.{Broker, Outcome, new_runtime, new_in_memory_broker, log_then}
use dsend.Engine.Broker.Names.{validate_queue_name, validate_binding_key}
use dsend.Engine.Broker.Queues.{create_queue, delete_queue, queue_added, queue_deleted_record}
use dsend.Engine.Broker.Exchanges.{bind_queue}
use dsend.Engine.Broker.Steps.{broker-Sound}
use dsend.Engine.Broker.Refused.{delete_refused, bind_refused}
use dsend.Engine.Broker.Startup.{with_queues, with_default_queue, restore_queues, new_broker}
use dsend.Engine.Broker.Startup.Recovered.{replay-Loads}
use dsend.Engine.Broker.Startup.Dangling.{dangling}
use dsend.Examples.Publishing.{news, news_found}
use dsend.Examples.{list_wal, list_wal-IsWal, small_config, message_of}
use dsend.Examples.Broker.{started-Sound, binding, reaching}

-- a log with room for so many records
abbrev Small : Type 0
Small = ℕ × List Record

add_record : Small → Record → Small × Bool
add_record (zero, w) r = ((zero, w), false)
add_record (suc n, w) r = ((n, w ++ r ∷ []), true)

instance unfoldable small_wal : Wal Small
small_wal = record { append = add_record }

small_wal-IsWal : IsWal small_wal
unfolding small_wal add_record
small_wal-IsWal = record { log = λ w. w.1; append_ok = taken; append_failed = refused }
  where
    taken :
        (w : Small) (r : Record) → (add_record w r).1 ≡ true → (add_record w r).0.1 ≡ w.1 ++ r ∷ []
    taken (zero, w) r e = cc
    taken (suc n, w) r e = refl

    refused : (w : Small) (r : Record) → (add_record w r).1 ≡ false → (add_record w r).0.1 ≡ w.1
    refused (zero, w) r e = refl
    refused (suc n, w) r e = cc

abbrev room_for : ℕ → Shared Small
room_for n = record { wal = (n, []); token_owners = [] }

abbrev with_orders : Broker Small
with_orders = (create_queue (with_queues small_config (room_for 1) []) "orders").0

abbrev orders : QueueRuntime
orders = new_runtime small_config "orders" []

orders_found : lookup "orders" with_orders.queues ≡ some orders
unfolding with_queues new_in_memory_broker with_default_queue restore_queues lookup insert
    create_queue validate_queue_name log_then small_wal add_record queue_added
orders_found = refl

orders_empty : (close_if_empty orders).1 ≡ true
unfolding close_if_empty Ring.size new_runtime set_token_hooks new_queue_runtime
    Ring.new_ring_buffer_queue Inflight.size Inflight.new_manager
orders_empty = refl

log_full : (small_wal.append with_orders.shared.wal (queue_deleted_record "orders")).1 ≡ false
unfolding with_queues new_in_memory_broker with_default_queue restore_queues lookup insert
    create_queue validate_queue_name log_then small_wal add_record queue_added
log_full = refl

delete_refused_example :
    let o = delete_queue with_orders "orders" (λ names. names) in
    (o.1 ≡ some err_wal_append)
    × (q' : QueueRuntime) × (lookup "orders" o.0.queues ≡ some q')
    × (Produce.publish q' (room_for 5) (message_of "m1") (pos 0) "id" 5
        ≡ some (q', room_for 5, some err_broker_closed))
delete_refused_example =
    delete_refused with_orders "orders" (λ names. names) orders (λ e. cc e) orders_found
      orders_empty log_full (room_for 5) (message_of "m1") (pos 0) "id" 5

abbrev without_room : Broker Small
without_room = with_queues small_config (room_for 0) []

default_found :
    lookup default_queue_name without_room.queues
    ≡ some (new_runtime small_config default_queue_name [])
unfolding with_queues new_in_memory_broker with_default_queue restore_queues lookup insert
default_found = refl

abbrev default_exchange : Exchange
default_exchange = new_exchange_factory default_exchange_name direct_exchange

exchange_found : lookup default_exchange_name without_room.exchanges ≡ some default_exchange
unfolding lookup with_queues new_in_memory_broker
exchange_found = refl

binds : (bind default_exchange "orders" default_queue_name).1 ≡ none
unfolding bind check_binding_exists new_exchange_factory
binds = refl

bind_refused_example :
    let o = bind_queue without_room default_exchange_name default_queue_name "orders" in
    (o.1 ≡ some err_wal_append)
    × (bind_queue o.0 default_exchange_name default_queue_name "orders"
        ≡ (o.0, some err_binding_already_exist))
    × (small_wal-IsWal.log o.0.shared.wal ≡ small_wal-IsWal.log without_room.shared.wal)
unfolding validate_binding_key small_wal add_record with_queues new_in_memory_broker
bind_refused_example =
    bind_refused without_room small_wal-IsWal default_exchange_name default_queue_name "orders"
      default_exchange _ refl exchange_found default_found binds refl

-- The log of the broker with a binding of `orders`, and the record that deletes `orders`.
abbrev cut_off : List Record
cut_off = list_wal-IsWal.log binding.0.shared.wal ++ queue_deleted_record "orders" ∷ []

news_bound : has_binding news.bindings "" "orders" ≡ true
unfolding has_binding bind check_binding_exists new_exchange_factory
news_bound = refl

dangling_example :
    (o : Outcome (List Record)) × (new_broker small_config binding.0.shared (some (replay cut_off))
      ≡ some o)
    × (o.1 ≢ none)
dangling_example =
    dangling list_wal-IsWal binding.0 (broker-Sound list_wal-IsWal started-Sound reaching) "orders"
      (λ e. cc e) (replay cut_off) (replay-Loads cut_off) small_config binding.0.shared "news" news
      (λ e. cc e) news_found news_bound
