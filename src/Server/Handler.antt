-- ===== src/Server/Handler.antt =====
-- internal/server/handler.go: the rounds of handleConnection's loop, one request each.
use dsend.Base.{
  pos, eq_ℤ, String, not, ◌&&◌, Option, none, some, List, [], ◌∷◌, map, inl, inr, ◌⊎◌, str_eq,
  if◌then◌else◌,
}
use dsend.Model.{Metric, QueueMetric, zero_metric}
use dsend.Session.{new_consumer_session}
use dsend.Storage.{Wal}
use dsend.Protocol.{
  RequestType, publish_request, ack_request, metrics_request, subscribe_request,
  unsubscribe_request, create_queue_request, delete_queue_request, list_queues_request,
  bind_queue_request, unbind_queue_request, create_exchange_request, delete_exchange_request,
  list_exchanges_request, other_request, consume_request, request_type_text, Request, Response,
  current_version,
}
use dsend.Engine.{Error}
use dsend.Engine.Broker.{Broker}
use dsend.Engine.Broker.Queues.{create_queue, delete_queue, list_queues}
use dsend.Engine.Broker.Exchanges.{
  create_exchange, delete_exchange, list_exchanges, bind_queue, unbind_queue,
}
use dsend.Engine.Broker.Messages.{
  Publishing, finished, waiting, publish, publish_all, subscribe, ack, queue_metrics, metrics,
}
use dsend.Server.{
  forwarder, publishing, Connection, Surroundings, error_text, failure_response, success_response,
  encode, Served, stop_subscription, leave, respond, answer,
}

-- the first of the constants with this text
abbrev find_type : List RequestType → String → RequestType
find_type [] text = other_request
find_type (type ∷ types) text =
    if str_eq (request_type_text type) text then type else find_type types text

-- The case of `switch req.Type` that is taken. `ConsumeRequest` has none.
unfoldable pub request_type : String → RequestType
request_type = find_type (
    publish_request ∷ ack_request ∷ metrics_request ∷ subscribe_request ∷ unsubscribe_request
    ∷ create_queue_request ∷ delete_queue_request ∷ list_queues_request ∷ bind_queue_request
    ∷ unbind_queue_request ∷ create_exchange_request ∷ delete_exchange_request
    ∷ list_exchanges_request ∷ [])

-- the metrics of one queue
abbrev pub metric_response : Response → String → Metric → Response
metric_response resp queue metric = record resp {
  metrics = record { queues = record { name = queue; metric = metric } ∷ []; total = metric };
}

-- the response to a request for the metrics of one queue
abbrev pub queue_metrics_response : String → String → Error ⊎ Metric → Response
queue_metrics_response append_text queue (inl err) =
    metric_response (failure_response (error_text append_text err)) queue zero_metric
queue_metrics_response append_text queue (inr metric) =
    metric_response success_response queue metric

-- the queues of a response, which have a name only
abbrev pub named_metric : String → QueueMetric
named_metric name = record { name = name; metric = zero_metric }

module _ {W : Type 0} where
  -- After the broker's Publish: it has returned, or it waits.
  unfoldable pub handle_published :
      Surroundings → Connection → Request → Broker W × Publishing → Served W
  handle_published env c req (b, finished err) = answer env c (b, err)
  handle_published env c req (b, waiting names) = (b, record c { stage = publishing req names })

  -- the case of AckRequest: a success is not answered
  unfoldable pub handle_acked : Surroundings → Connection → Broker W × Option Error → Served W
  handle_acked env c (b, none) = (b, c)
  handle_acked env c (b, some err) =
      respond env.written b c (failure_response (error_text env.append_text err))

  -- the case of MetricsRequest
  unfoldable pub handle_metrics : Surroundings → Served W → String → Served W
  handle_metrics env (b, c) queue =
      if not (str_eq queue "")
      then respond env.written b c
          (queue_metrics_response env.append_text queue (queue_metrics b queue))
      else respond env.written b c (record success_response { metrics = metrics b })

  -- after the broker's Subscribe: a success is not answered, and starts the goroutine
  unfoldable pub handle_subscribed :
      Surroundings → Connection → Request → Broker W × Option Error → Served W
  handle_subscribed env c req (b, some err) =
      respond env.written b c (failure_response (error_text env.append_text err))
  handle_subscribed env c req (b, none) =
      (b, record c { subscription = some (forwarder req.queue req.id env.address) })

  -- the case of SubscribeRequest
  unfoldable pub handle_subscribe : Surroundings → Served W → Request → Served W
  handle_subscribe env (b, c) req = elim c.subscription [
    | some _ ↦ respond env.written b c (failure_response "Already subscribed")
    | none ↦
        handle_subscribed env c req
          (subscribe b req.queue (new_consumer_session env.address req.id))
  ]

  -- the case of UnsubscribeRequest
  unfoldable pub handle_unsubscribe : Surroundings → Served W → Served W
  handle_unsubscribe env (b, c) =
      respond env.written (stop_subscription b c.subscription) (record c { subscription = none })
        success_response

  module _ ⦃wal : Wal W⦄ where
    -- the `switch`
    unfoldable pub handle_type : RequestType → Surroundings → Served W → Request → Served W
    handle_type publish_request env (b, c) req =
        handle_published env c req
          (publish b req.exchange req.routing_key req.payload req.ttl env.fresh env.clock)
    handle_type ack_request env (b, c) req = handle_acked env c (ack b req.ack_token)
    handle_type metrics_request env s req = handle_metrics env s req.queue
    handle_type subscribe_request env s req = handle_subscribe env s req
    handle_type unsubscribe_request env s req = handle_unsubscribe env s
    handle_type create_queue_request env (b, c) req = answer env c (create_queue b req.queue)
    handle_type delete_queue_request env (b, c) req =
        answer env c (delete_queue b req.queue env.order)
    handle_type list_queues_request env (b, c) req =
        respond env.written b c
          (record success_response { queues = map named_metric (list_queues b) })
    handle_type bind_queue_request env (b, c) req =
        answer env c (bind_queue b req.exchange req.queue req.binding_key)
    handle_type unbind_queue_request env (b, c) req =
        answer env c (unbind_queue b req.exchange req.queue req.binding_key)
    handle_type create_exchange_request env (b, c) req =
        answer env c (create_exchange b req.exchange req.exchange_type)
    handle_type delete_exchange_request env (b, c) req =
        answer env c (delete_exchange b req.exchange)
    handle_type list_exchanges_request env (b, c) req =
        respond env.written b c (record success_response { exchanges = list_exchanges b })
    handle_type consume_request env (b, c) req =
        respond env.written b c (failure_response "unknown request")
    handle_type other_request env (b, c) req =
        respond env.written b c (failure_response "unknown request")

    -- A request that was decoded.
    unfoldable pub handle_request : Surroundings → Served W → Request → Served W
    handle_request env (b, c) req =
        if not (eq_ℤ req.version current_version) && not (eq_ℤ req.version (pos 0))
        then leave (b, (encode env.written c (failure_response "unsupported protocol version")).0)
        else handle_type (request_type req.type) env (b, c) req

    -- A round of the loop, while the handler reads: the context is done or Decode fails, and then there
    -- is no request, or there is one.
    unfoldable pub handle_round : Surroundings → Served W → Option Request → Served W
    handle_round env s none = leave s
    handle_round env s (some req) = handle_request env s req

    -- The rest of a Publish that waited.
    unfoldable pub handle_resumed : Surroundings → Served W → Request → List String → Served W
    handle_resumed env (b, c) req names =
        handle_published env c req (publish_all names b req.payload req.ttl env.fresh env.clock 0)
