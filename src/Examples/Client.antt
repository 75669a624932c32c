-- ===== src/Examples/Client.antt =====
-- A client and a server.
use dsend.Base.{
  pos, false, none, some, List, [], ◌∷◌, ◌≡◌, refl, inr, lookup, lookup-insert, map, insert, ◌+ℤ◌,
}
use dsend.Model.{Record, Delivery, zero_message}
use dsend.Protocol.{current_version}
use dsend.Queue.RingBuffer as Ring
use dsend.Exchange.{new_exchange_factory, bind, check_binding_exists, route}
use dsend.Engine.QueueRuntime.{QueueRuntime, set_token_hooks, new_queue_runtime}
use dsend.Engine.QueueRuntime.Produce
use dsend.Engine.QueueRuntime.Produce.{pushed, log_and_push}
use dsend.Engine.Broker.{put_queue, new_runtime, new_in_memory_broker, log_then}
use dsend.Engine.Broker.Names.{
  validate_binding_key, validate_exchange_name, validate_exchange_type, validate_queue_name,
}
use dsend.Engine.Broker.Queues.{create_queue, queue_added}
use dsend.Engine.Broker.Exchanges.{create_exchange, bind_queue, rebind}
use dsend.Engine.Broker.Messages.{Publishing, finished, waiting}
use dsend.Engine.Broker.Startup.{with_queues, with_default_queue, restore_queues}
use dsend.Engine.Broker.Queues as Queues
use dsend.Engine.Broker.Exchanges as Exchanges
use dsend.Engine.Broker.Messages as Messages
use dsend.Server.{forwarder, stop_subscription}
use dsend.Client.{Context}
use dsend.Client.Producer as Producer
use dsend.Client.Producer.{typed}
use dsend.Client.Consumer as Consumer
use dsend.Client.Loopback.{Wire, Waking, idle, loopback, awaiting}
use dsend.Client.Remote.{concluded, remote_metric, administer-Remote, list-Remote}
use dsend.Client.Published.{
  published, await_room, publish_request_of, publish_concluded, publish-Remote,
}
use dsend.Client.Received.{
  of_delivery, pull, acknowledged, deliveries-Received, ack-Received, unsubscribe-Received,
}
use dsend.Examples.{list_wal, small_config, alice, message_of}
use dsend.Examples.Broker.{Run, binding}
use dsend.Examples.Server.{calm, attended}

abbrev pub live : Context
live = record { before = false; after = false }

abbrev wire : Wire (List Record)
wire = (calm, (binding.0, idle none))

administer-Remote_example :
    (Producer.create_queue live wire "bills"
      ≡ concluded calm none (Queues.create_queue binding.0 "bills"))
    × (Producer.delete_queue live wire "bills"
        ≡ concluded calm none (Queues.delete_queue binding.0 "bills" calm.order))
    × (Producer.bind_queue live wire "news" "bills" "a.b"
        ≡ concluded calm none (Exchanges.bind_queue binding.0 "news" "bills" "a.b"))
    × (Producer.unbind_queue live wire "news" "bills" "a.b"
        ≡ concluded calm none (Exchanges.unbind_queue binding.0 "news" "bills" "a.b"))
    × (Producer.create_exchange live wire "news" "a.b"
        ≡ concluded calm none (Exchanges.create_exchange binding.0 "news" "a.b"))
    × (Producer.delete_exchange live wire "news"
        ≡ concluded calm none (Exchanges.delete_exchange binding.0 "news"))
administer-Remote_example =
    administer-Remote live calm none refl refl binding.0 "news" "bills" "a.b"

-- The queue `orders` without room, and the broker with it.
abbrev crowded : Run
crowded = put_queue binding.0 "orders" (record (new_runtime small_config "orders" []) {
  queue = Ring.push (Ring.new_ring_buffer_queue 1) (message_of "old");
})

-- Room again, with the next ID and time.
abbrev room_again : Waking (List Record)
room_again = record { broker = binding.0; fresh = λ _. "next"; clock = λ _. 9 }

abbrev first_try : Run × Publishing
first_try = published calm crowded "news" "orders.paid" "hello" (pos 0)

waits : first_try.1 ≡ waiting ("orders" ∷ [])
unfolding with_queues new_in_memory_broker with_default_queue restore_queues lookup insert
    create_queue create_exchange bind_queue rebind bind check_binding_exists log_then list_wal
    queue_added new_exchange_factory validate_binding_key validate_exchange_name
    validate_exchange_type validate_queue_name Messages.publish Messages.publish_all
    Messages.publish_one Messages.queue route Produce.publish new_runtime set_token_hooks
    new_queue_runtime Ring.size Ring.new_ring_buffer_queue Ring.capacity Ring.push ◌+ℤ◌
waits = refl

ends :
    (await_room calm
      (room_again ∷ [])
      (record zero_message { payload = "hello" })
      (pos 0)
      first_try).1
    ≡ finished none
unfolding with_queues new_in_memory_broker with_default_queue restore_queues lookup insert
    create_queue create_exchange bind_queue rebind bind check_binding_exists log_then list_wal
    queue_added new_exchange_factory validate_binding_key validate_exchange_name
    validate_exchange_type validate_queue_name Messages.publish Messages.publish_all
    Messages.publish_one Messages.queue route Produce.publish new_runtime set_token_hooks
    new_queue_runtime Ring.size Ring.new_ring_buffer_queue Ring.capacity Ring.push ◌+ℤ◌ await_room
    pushed log_and_push
ends = refl

-- The call waits, and ends once it is woken with room in the queue.
publish-Remote_example :
    Producer.publish ⦃link = awaiting (room_again ∷ [])⦄ live
      (calm, (crowded, idle none))
      "news"
      "orders.paid"
      "hello"
      (pos 0)
    ≡ publish_concluded live calm none
        (record (publish_request_of "news" "orders.paid" "hello" (pos 0)) {
          version = current_version;
        })
        (await_room calm
          (room_again ∷ [])
          (record zero_message { payload = "hello" })
          (pos 0)
          (published calm crowded "news" "orders.paid" "hello" (pos 0)))
publish-Remote_example =
    publish-Remote live calm none refl refl (room_again ∷ []) crowded "news" "orders.paid" "hello"
      (pos 0)

list-Remote_example :
    (Producer.list_queues live wire ≡ (wire, inr (Queues.list_queues binding.0)))
    × (Producer.list_exchanges live wire ≡ (wire, inr (Exchanges.list_exchanges binding.0)))
    × (Producer.metrics live wire ≡ (wire, inr (Messages.metrics binding.0)))
    × (Producer.queue_metrics live wire "orders" ≡ (
      wire,
      remote_metric calm.append_text "orders" (Messages.queue_metrics binding.0 "orders"),
    ))
list-Remote_example = list-Remote live calm none refl refl binding.0 "orders" (λ e. cc e)

-- Two deliveries that wait.
abbrev waiting_deliveries : List Delivery
waiting_deliveries =
    record { message = message_of "one"; ack_token = "t1"; consumer_id = "alice" }
    ∷ record { message = message_of "two"; ack_token = "t2"; consumer_id = "alice" }
    ∷ []

abbrev orders : QueueRuntime
orders = record (new_runtime small_config "orders" []) {
  consumer_sessions = ("alice", record alice { deliveries = waiting_deliveries }) ∷ [];
}

abbrev waiting_broker : Run
waiting_broker = put_queue binding.0 "orders" orders

orders_found : lookup "orders" waiting_broker.queues ≡ some orders
orders_found = rw lookup-insert refl

alice_found :
    lookup "alice" orders.consumer_sessions
    ≡ some (record alice { deliveries = waiting_deliveries })
unfolding lookup
alice_found = refl

deliveries-Received_example :
    (b : Run) × (q : QueueRuntime) × (pull live 2
        (calm, (waiting_broker, idle (some (forwarder "orders" "alice" 1))))
      ≡ (
        (calm, (b, idle (some (forwarder "orders" "alice" 1)))),
        map (λ delivery. inr (of_delivery delivery)) waiting_deliveries,
      ))
    × (lookup "orders" b.queues ≡ some q)
    × (lookup "alice" q.consumer_sessions ≡ some (record alice { deliveries = [] }))
deliveries-Received_example =
    deliveries-Received live calm refl waiting_deliveries waiting_broker "orders" "alice" orders
      alice orders_found alice_found

ack-Received_example :
    let o = Consumer.ack {C = Wire (List Record)} wire "t1" in
    (o.1 ≡ none)
    × (Consumer.receive live o.0 ≡ (
      (calm, ((Messages.ack binding.0 "t1").0, idle none)),
      acknowledged live calm.append_text (Messages.ack binding.0 "t1").1,
    ))
ack-Received_example = ack-Received live calm refl none refl binding.0 "t1"

unsubscribe-Received_example :
    let sub = some (forwarder "orders" "alice" 1) in
    Consumer.receive live
      (Consumer.unsubscribe {C = Wire (List Record)} (calm, (attended, idle sub))).0
    ≡ (
      (calm, (stop_subscription attended sub, idle none)),
      inr (record { id = ""; payload = ""; ack_token = "" }),
    )
unsubscribe-Received_example =
    unsubscribe-Received live calm refl (some (forwarder "orders" "alice" 1)) refl attended
