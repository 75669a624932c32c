-- ===== src/Client/Producer.antt =====
-- client/producer.go: the methods of Producer, each a request and what it makes of the response.
use Prim.Native.String.{◌++◌}
use dsend.Base.{ℤ, String, List, [], ◌∷◌, map, inl, inr, str_eq, if◌then◌else◌}
use dsend.Model.{QueueMetric, BrokerMetrics, zero_message}
use dsend.Protocol.{
  publish_request, metrics_request, create_queue_request, delete_queue_request, list_queues_request,
  bind_queue_request, unbind_queue_request, create_exchange_request, delete_exchange_request,
  list_exchanges_request, request_type_text, Request, Response, zero_request,
}
use dsend.Client.{Link, reported, Result, Context, call}

-- the zero request with its type
abbrev pub typed : String → Request
typed type = record zero_request { type = type }

-- `return nil`
abbrev pub no_result : Response → Result Unit
no_result resp = inr tt

-- the loop of QueueMetrics
unfoldable pub find_metric : String → List QueueMetric → Result QueueMetric
find_metric queue_name [] = inl (reported ("queue metrics not found for " ++ queue_name))
find_metric queue_name (m ∷ ms) =
    let rest = find_metric queue_name ms in if str_eq m.name queue_name then inr m else rest

module _ {C : Type 0} ⦃link : Link C⦄ where
  -- Publish
  unfoldable pub publish : Context → C → String → String → String → ℤ → C × Result Unit
  publish ctx c exchange_name routing_key payload ttl =
      call ctx c
        (record (typed (request_type_text publish_request)) {
          exchange = exchange_name;
          routing_key = routing_key;
          payload = record zero_message { payload = payload };
          ttl = ttl;
        })
        no_result

  -- Metrics
  unfoldable pub metrics : Context → C → C × Result BrokerMetrics
  metrics ctx c = call ctx c (typed (request_type_text metrics_request)) (λ resp. inr resp.metrics)

  -- QueueMetrics
  unfoldable pub queue_metrics : Context → C → String → C × Result QueueMetric
  queue_metrics ctx c queue_name =
      call ctx c (record (typed (request_type_text metrics_request)) { queue = queue_name })
        (λ resp. find_metric queue_name resp.metrics.queues)

  -- CreateQueue
  unfoldable pub create_queue : Context → C → String → C × Result Unit
  create_queue ctx c name =
      call ctx c (record (typed (request_type_text create_queue_request)) { queue = name })
        no_result

  -- DeleteQueue
  unfoldable pub delete_queue : Context → C → String → C × Result Unit
  delete_queue ctx c name =
      call ctx c (record (typed (request_type_text delete_queue_request)) { queue = name })
        no_result

  -- ListQueues
  unfoldable pub list_queues : Context → C → C × Result (List String)
  list_queues ctx c =
      call ctx c (typed (request_type_text list_queues_request))
        (λ resp. inr (map (λ (queue : QueueMetric). queue.name) resp.queues))

  -- BindQueue
  unfoldable pub bind_queue : Context → C → String → String → String → C × Result Unit
  bind_queue ctx c exchange_name queue_name binding_key =
      call ctx c
        (record (typed (request_type_text bind_queue_request)) {
          exchange = exchange_name;
          queue = queue_name;
          binding_key = binding_key;
        })
        no_result

  -- UnbindQueue
  unfoldable pub unbind_queue : Context → C → String → String → String → C × Result Unit
  unbind_queue ctx c exchange_name queue_name binding_key =
      call ctx c
        (record (typed (request_type_text unbind_queue_request)) {
          exchange = exchange_name;
          queue = queue_name;
          binding_key = binding_key;
        })
        no_result

  -- CreateExchange
  unfoldable pub create_exchange : Context → C → String → String → C × Result Unit
  create_exchange ctx c exchange_name exchange_type =
      call ctx c
        (record (typed (request_type_text create_exchange_request)) {
          exchange = exchange_name;
          exchange_type = exchange_type;
        })
        no_result

  -- DeleteExchange
  unfoldable pub delete_exchange : Context → C → String → C × Result Unit
  delete_exchange ctx c exchange_name =
      call ctx c
        (record (typed (request_type_text delete_exchange_request)) { exchange = exchange_name })
        no_result

  -- ListExchanges
  unfoldable pub list_exchanges : Context → C → C × Result (List String)
  list_exchanges ctx c =
      call ctx c (typed (request_type_text list_exchanges_request)) (λ resp. inr resp.exchanges)
