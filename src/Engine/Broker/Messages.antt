-- ===== src/Engine/Broker/Messages.antt =====
-- mem_broker.go: the methods that reach one runtime or all of them.
use dsend.Base.{
  ℕ, ◌+◌, ℤ, ◌+ℤ◌, String, true, ◌||◌, Option, none, some, List, [], ◌∷◌, ◌++◌, ◌⊎◌, inl, inr,
  length, Map, keys, lookup, str_eq, nat_eq, sort_by, if◌then◌else◌,
}
use dsend.Model.{
  Message, Metric, QueueMetric, BrokerMetrics, zero_broker_metrics, default_queue_name,
}
use dsend.Session.{ConsumerSession}
use dsend.Storage.{Wal}
use dsend.Exchange.{route}
use dsend.Engine.{
  Error, err_broker_closed, err_queue_not_found, err_exchange_not_found, err_no_route,
  err_invalid_ack_token,
}
use dsend.Engine.QueueRuntime as Runtime
use dsend.Engine.QueueRuntime.{QueueRuntime}
use dsend.Engine.QueueRuntime.Produce
use dsend.Engine.Broker.{Broker, Outcome, put_queue, start_queue}

-- the name under which `queue` looks
abbrev pub queue_key : String → String
queue_key name = if str_eq name "" then default_queue_name else name

-- How a call of Publish ends, or the queue at which it waits for room, with those behind it.
pub data Publishing : Type 0 where
  finished : Option Error → Publishing
  waiting : List String → Publishing

-- the loop of Shutdown over the runtimes
unfoldable pub shut_all : Map QueueRuntime → Map QueueRuntime
shut_all [] = []
shut_all ((name, runtime) ∷ rest) = (name, Runtime.shutdown runtime) ∷ shut_all rest

-- `result.Total` after one more metric
unfoldable pub add_metric : Metric → Metric → Metric
add_metric total metric = record {
  produced_count = total.produced_count + metric.produced_count;
  acked_count = total.acked_count + metric.acked_count;
  dlq_count = total.dlq_count + metric.dlq_count;
  inflight_count = total.inflight_count + metric.inflight_count;
  redelivered_count = total.redelivered_count + metric.redelivered_count;
  consumer_session_count = total.consumer_session_count + metric.consumer_session_count;
  queue_depth = total.queue_depth +ℤ metric.queue_depth;
}

-- the loop of Metrics, over the runtimes in some order
unfoldable pub collect_metrics : Map QueueRuntime → BrokerMetrics → BrokerMetrics
collect_metrics [] result = result
collect_metrics ((name, runtime) ∷ rest) result = collect_metrics rest (record {
  queues = result.queues ++ record { name = name; metric = Runtime.metrics runtime } ∷ [];
  total = add_metric result.total (Runtime.metrics runtime);
})

module _ {W : Type 0} where
  -- queue: the runtime with the name of its queue
  unfoldable pub queue : Broker W → String → Error ⊎ QueueRuntime
  queue b name =
      if b.closed then inl err_broker_closed else elim (lookup (queue_key name) b.queues) [
        | none ↦ inl err_queue_not_found
        | some runtime ↦ inr runtime
      ]

  -- Subscribe
  unfoldable pub subscribe : Broker W → String → ConsumerSession → Outcome W
  subscribe b queue_name session = elim (queue b queue_name) [
    | inl err ↦ (b, some err)
    | inr runtime ↦
        let (runtime', err) = Runtime.subscribe runtime session in
        (put_queue b (queue_key queue_name) runtime', err)
  ]

  -- Unsubscribe
  unfoldable pub unsubscribe : Broker W → String → String → Broker W
  unsubscribe b queue_name session_id = elim (queue b queue_name) [
    | inl err ↦ b
    | inr runtime ↦ put_queue b (queue_key queue_name) (Runtime.unsubscribe runtime session_id)
  ]

  -- Start
  unfoldable pub start_all : List String → Broker W → Broker W
  start_all [] b = b
  start_all (name ∷ names) b = start_all names (start_queue b name)

  unfoldable pub start : Broker W → Broker W
  start b =
      if b.started || b.closed then b else start_all (keys b.queues) (record b { started = true })

  -- Shutdown. It returns when the goroutines of the runtimes have ended.
  unfoldable pub shutdown : Broker W → Broker W
  shutdown b = if b.closed then b else record b {
    closed = true;
    queues = shut_all b.queues;
    shared = record b.shared { token_owners = [] };
    running = [];
  }

  -- QueueMetrics
  unfoldable pub queue_metrics : Broker W → String → Error ⊎ Metric
  queue_metrics b queue_name = elim (queue b queue_name) [
    | inl err ↦ inl err
    | inr runtime ↦ inr (Runtime.metrics runtime)
  ]

  -- Metrics
  unfoldable pub metrics : Broker W → BrokerMetrics
  metrics b =
      let result = collect_metrics b.queues (zero_broker_metrics) in
      record { queues = sort_by (λ (m : QueueMetric). m.name) result.queues; total = result.total }

  module _ ⦃wal : Wal W⦄ where
    -- one round of the loop of Publish
    unfoldable pub publish_one :
        Broker W → String → Message → ℤ → String → ℕ → Broker W × Option (Option Error)
    publish_one b name payload ttl fresh_id now = elim (queue b name) [
      | inl err ↦ (b, some (some err))
      | inr runtime ↦ elim (Produce.publish runtime b.shared payload ttl fresh_id now) [
        | none ↦ (b, none)
        | some (runtime', shared', err) ↦
            (put_queue (record b { shared = shared' }) (queue_key name) runtime', some err)
      ]
    ]

    -- The loop. Each call of the runtime's Publish draws its own ID and reads the clock: those of the
    -- i-th round are `fresh i` and `clock i`.
    unfoldable pub publish_all :
        List String → Broker W → Message → ℤ → (ℕ → String) → (ℕ → ℕ) → ℕ → Broker W × Publishing
    publish_all [] b payload ttl fresh clock i = (b, finished none)
    publish_all (name ∷ names) b payload ttl fresh clock i =
        let (b', ended) = publish_one b name payload ttl (fresh i) (clock i) in
        elim ended [
          | none ↦ (b', waiting (name ∷ names))
          | some (some err) ↦ (b', finished (some err))
          | some none ↦ publish_all names b' payload ttl fresh clock (i + 1)
        ]

    -- Publish
    unfoldable pub publish :
        Broker W → String → String → Message → ℤ → (ℕ → String) → (ℕ → ℕ) → Broker W × Publishing
    publish b exchange_name routing_key payload ttl fresh clock =
        elim (lookup exchange_name b.exchanges) [
          | none ↦ (b, finished (some err_exchange_not_found))
          | some e ↦
              let queue_names = route e routing_key in
              if nat_eq (length queue_names) 0
              then (b, finished (some err_no_route))
              else publish_all queue_names b payload ttl fresh clock 0
        ]

    -- Ack. The owner of a token is the runtime of the queue that tokenOwners names; a runtime that was
    -- deleted has nothing in flight and knows no token.
    unfoldable pub ack : Broker W → String → Outcome W
    ack b token = elim (lookup token b.shared.token_owners) [
      | none ↦ (b, some err_invalid_ack_token)
      | some name ↦ elim (lookup name b.queues) [
        | none ↦ (b, some err_invalid_ack_token)
        | some runtime ↦
            let (runtime', shared', err) = Produce.ack runtime b.shared token in
            (put_queue (record b { shared = shared' }) name runtime', err)
      ]
    ]
