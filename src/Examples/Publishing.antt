-- ===== src/Examples/Publishing.antt =====
-- A message through a broker.
use Prim.Native.String as Text
use dsend.Base.{
  length, ◌+◌, ◌≤◌, true, false, List, [], ◌∷◌, subst, ℕ, zero, suc, pos, String, none, some, ◌++◌,
  ◌≡◌, ◌≢◌, refl, ap, arith, inl, inr, Mem, lookup, insert, text_cases,
}
use mathlib.Core.List.{not-mem-nil}
use mathlib.Core.Option.{some-injective}
use dsend.Model.{Message, Record, default_queue_name, topic_exchange}
use dsend.Queue.RingBuffer.Contents.{contents}
use dsend.Storage.Durable.{ids}
use dsend.Exchange.{Exchange, new_exchange_factory, bind, check_binding_exists, route}
use dsend.Queue.RingBuffer as Ring
use dsend.Engine.QueueRuntime.{QueueRuntime, set_token_hooks, new_queue_runtime}
use dsend.Engine.QueueRuntime.Produce
use dsend.Engine.QueueRuntime.Durable.{live}
use dsend.Engine.QueueRuntime.Recovery.{restarted_lem}
use dsend.Engine.Broker.{new_runtime, new_in_memory_broker, log_then}
use dsend.Engine.Broker.Names.{
  validate_binding_key, validate_exchange_name, validate_exchange_type, validate_queue_name,
}
use dsend.Engine.Broker.Queues.{create_queue, queue_added}
use dsend.Engine.Broker.Exchanges.{create_exchange, bind_queue, rebind}
use dsend.Engine.Broker.Messages.{finished, publish, publish_all, publish_one, queue}
use dsend.Engine.Broker.Sound.{Sound}
use dsend.Engine.Broker.Steps.{broker-Sound}
use dsend.Engine.Broker.Startup.{with_queues, with_default_queue, restore_queues}
use dsend.Engine.Broker.Publishing.{Unused, copies, publish_lem}
use dsend.Engine.Broker.Publishing.Succeeds.{Ready, publish-Succeeds}
use dsend.Examples.{list_wal, list_wal-IsWal, small_config}
use dsend.Examples.Broker.{started-Sound, binding, reaching}

-- IDs that differ.
abbrev pub tick : ℕ → String
tick zero = ""
tick (suc n) = Text.String.◌∷◌ "a" (tick n)

pub ticks_differ : (i j : ℕ) → i ≢ j → tick i ≢ tick j
ticks_differ zero zero ne = λ _. ne refl
ticks_differ zero (suc j) ne = λ e. cc e
ticks_differ (suc i) zero ne = λ e. cc e
ticks_differ (suc i) (suc j) ne = λ e. ticks_differ i j (λ p. ne (ap suc p)) (cc e)

abbrev pub hello : Message
hello = record { id = ""; payload = "hello"; timestamp = 0; retry = pos 0; expiry_at = none }

pub nothing_live : (name : String) → live (new_runtime small_config name []) ≡ []
unfolding new_runtime set_token_hooks
nothing_live name =
    let (_, queued, flight, _) = restarted_lem name small_config [] (omega arith) in
    rw (queued, flight) refl

-- The queues are the default one and `orders`.
no_message :
    (q : QueueRuntime) (name id : String)
    → new_runtime small_config name [] ≡ q
    → ¬ Mem id (ids (live q))
no_message q name id e = rw (← e, nothing_live name) not-mem-nil

pub nothing_used : Unused list_wal-IsWal hello (pos 0) tick (λ i. i) binding.0 0
unfolding with_queues new_in_memory_broker with_default_queue restore_queues lookup insert
    create_queue create_exchange bind_queue rebind bind check_binding_exists log_then list_wal
    queue_added new_exchange_factory validate_binding_key validate_exchange_name
    validate_exchange_type validate_queue_name
nothing_used j n q le e = elim (text_cases default_queue_name n) [
  | inl (h, _) ↦ no_message q default_queue_name (tick j) (some-injective _ q (rw h at e))
  | inr (h, _) ↦ elim (text_cases "orders" n) [
    | inl (k, _) ↦ no_message q "orders" (tick j) (some-injective _ q (rw (h, k) at e))
    | inr (k, _) ↦ cc (rw (h, k) at e)
  ]
]

pub bound-Sound : Sound list_wal-IsWal binding.0
bound-Sound = broker-Sound list_wal-IsWal started-Sound reaching

-- The exchange of the topic, and the queue.
abbrev pub news : Exchange
news = (bind (new_exchange_factory "news" topic_exchange) "orders.#" "orders").0

pub news_found : lookup "news" binding.0.exchanges ≡ some news
unfolding with_queues new_in_memory_broker with_default_queue restore_queues lookup insert
    create_queue create_exchange bind_queue rebind bind check_binding_exists log_then list_wal
    queue_added new_exchange_factory validate_binding_key validate_exchange_name
    validate_exchange_type validate_queue_name
news_found = refl

orders_found : lookup "orders" binding.0.queues ≡ some (new_runtime small_config "orders" [])
unfolding with_queues new_in_memory_broker with_default_queue restore_queues lookup insert
    create_queue create_exchange bind_queue rebind bind check_binding_exists log_then list_wal
    queue_added new_exchange_factory validate_binding_key validate_exchange_name
    validate_exchange_type validate_queue_name
orders_found = refl

hello_published :
    (publish binding.0 "news" "orders.paid" hello (pos 0) tick (λ i. i)).1 ≡ finished none
unfolding with_queues new_in_memory_broker with_default_queue restore_queues lookup insert
    create_queue create_exchange bind_queue rebind bind check_binding_exists log_then list_wal
    queue_added new_exchange_factory validate_binding_key validate_exchange_name
    validate_exchange_type validate_queue_name publish publish_all publish_one queue route
    Produce.publish new_runtime set_token_hooks new_queue_runtime Ring.size
    Ring.new_ring_buffer_queue Ring.capacity
hello_published = refl

publish_lem_example :
    (q' : QueueRuntime) × (lookup "orders"
        (publish binding.0 "news" "orders.paid" hello (pos 0) tick (λ i. i)).0.queues
      ≡ some q')
    × (contents q'.queue
        ≡ contents (new_runtime small_config "orders" []).queue
          ++ copies list_wal-IsWal hello
              (pos 0)
              tick
              (λ i. i)
              "orders"
              (route news "orders.paid")
              0)
publish_lem_example =
    publish_lem list_wal-IsWal hello (pos 0) tick (λ i. i) refl ticks_differ binding.0 "news"
      "orders.paid" bound-Sound nothing_used news news_found hello_published "orders" _ orders_found

-- A queue of this configuration has room for two messages.
new_roomy :
    (q : QueueRuntime) (name : String) (more : List Message)
    → new_runtime small_config name [] ≡ q
    → length more ≤ 2
    → (q.closed ≡ false) × (length (contents q.queue) + length more ≤ q.queue.cap)
unfolding new_runtime set_token_hooks new_queue_runtime Ring.new_ring_buffer_queue
new_roomy q name more e few =
    let (_, queued, _, _) = restarted_lem name small_config [] (omega arith) in
    subst
      (λ (k : QueueRuntime).
        (k.closed ≡ false) × (length (contents k.queue) + length more ≤ k.queue.cap))
      e (refl, rw queued (omega (arith, few)))

route_of_news : route news "orders.paid" ≡ "orders" ∷ []
unfolding bind check_binding_exists new_exchange_factory route
route_of_news = refl

few_copies :
    (n : String)
    → length (copies list_wal-IsWal hello (pos 0) tick (λ i. i) n ("orders" ∷ []) 0) ≤ 2
unfolding copies
few_copies n = elim (text_cases "orders" n) [
  | inl (h, _) ↦ rw h (omega arith)
  | inr (h, _) ↦ rw h (omega arith)
]

news-Ready : Ready list_wal-IsWal hello (pos 0) tick (λ i. i) binding.0 ("orders" ∷ []) 0
unfolding with_queues new_in_memory_broker with_default_queue restore_queues lookup insert
    create_queue create_exchange bind_queue rebind bind check_binding_exists log_then list_wal
    queue_added new_exchange_factory validate_binding_key validate_exchange_name
    validate_exchange_type validate_queue_name
news-Ready = record {
  is_open = refl;
  known = (refl, tt);
  roomy = λ n q e _. elim (text_cases default_queue_name n) [
    | inl (h, _) ↦ new_roomy q default_queue_name _ (some-injective _ q (rw h at e)) (few_copies n)
    | inr (h, _) ↦ elim (text_cases "orders" n) [
      | inl (k, _) ↦ new_roomy q "orders" _ (some-injective _ q (rw (h, k) at e)) (few_copies n)
      | inr (k, _) ↦ cc (rw (h, k) at e)
    ]
  ];
}

accepts : (w : List Record) (r : Record) → (list_wal.append w r).1 ≡ true
unfolding list_wal
accepts w r = refl

publish-Succeeds_example :
    (publish binding.0 "news" "orders.paid" hello (pos 0) tick (λ i. i)).1 ≡ finished none
publish-Succeeds_example =
    publish-Succeeds list_wal-IsWal hello (pos 0) tick (λ i. i) refl ticks_differ accepts binding.0
      "news" "orders.paid" news bound-Sound nothing_used news_found (rw route_of_news (omega arith))
      (rw route_of_news news-Ready)
