-- ===== src/Client/Remote.antt =====
-- The methods of a Producer, on a server that answers: they do what the broker's methods do.
use dsend.Base.{
  String, Bool, true, false, Option, none, some, List, [], ◌∷◌, map, ◌≡◌, refl, ◌≢◌, ap, ◌∙◌, ◌⊎◌,
  inl, inr, if◌then◌else◌, str_eq_of_ne,
}
use text.Mathlib.TextPositions.{eq_refl}
use dsend.Model.{Metric, QueueMetric}
use dsend.Storage.{Wal}
use dsend.Protocol.{Request, Response, current_version}
use dsend.Engine.{Error}
use dsend.Engine.Broker.{Broker, Outcome}
use dsend.Engine.Broker.Queues as Queues
use dsend.Engine.Broker.Exchanges as Exchanges
use dsend.Engine.Broker.Messages as Messages
use dsend.Engine.Broker.Messages.{Publishing, finished, waiting}
use dsend.Server.{Subscription, Surroundings, error_text, encode, respond, answer}
use dsend.Server.Handler.{
  queue_metrics_response, handle_metrics, named_metric, handle_type, handle_request, request_type,
}
use dsend.Client.{Link, cancelled, reported, Result, Context, do_request, conclude, call}
use dsend.Client.Producer.{
  no_result, metrics, queue_metrics, list_queues, list_exchanges, find_metric, create_queue,
  delete_queue, bind_queue, unbind_queue, create_exchange, delete_exchange,
}
use dsend.Client.Loopback.{Wire, idle, loopback, read}

-- What a method returns for the error of the broker's.
abbrev pub remote_result : String → Option Error → Result Unit
remote_result append_text none = inr tt
remote_result append_text (some err) = inl (reported (error_text append_text err))

-- What QueueMetrics of Producer returns for what the broker's returns.
abbrev pub remote_metric : String → String → Error ⊎ Metric → Result QueueMetric
remote_metric append_text queue_name (inl err) = inl (reported (error_text append_text err))
remote_metric append_text queue_name (inr metric) =
    inr (record { name = queue_name; metric = metric })

find_metric_self :
    (queue_name : String) (metric : Metric)
    → find_metric queue_name (record { name = queue_name; metric = metric } ∷ [])
      ≡ inr (record { name = queue_name; metric = metric })
unfolding find_metric
find_metric_self queue_name metric = rw eq_refl refl

names_lem :
    (names : List String)
    → map (λ (queue : QueueMetric). queue.name) (map named_metric names) ≡ names
names_lem [] = refl
names_lem (name ∷ names) = ap (λ ns. name ∷ ns) (names_lem names)

-- The wire after a call of the broker, with what the method returns.
abbrev pub concluded :
    {W : Type 0} → Surroundings → Option Subscription → Outcome W → Wire W × Result Unit
concluded env sub (b, err) = ((env, (b, idle sub)), remote_result env.append_text err)

-- A method that finds its context live sends its request.
pub call-live :
    {C A : Type 0} ⦃link : Link C⦄ (ctx : Context)
    → ctx.before ≡ false
    → (c : C) (req : Request) (use_response : Response → Result A)
    → call ctx c req use_response ≡ conclude ctx use_response (do_request c req)
unfolding call
call-live ctx live c req use_response =
    ap
      (λ (before : Bool).
        if before then (c, inl cancelled) else conclude ctx use_response (do_request c req))
      live

module _ {W : Type 0} ⦃wal : Wal W⦄ (ctx : Context) (env : Surroundings) (sub : Option Subscription)
    (live : ctx.before ≡ false) (written : env.written ≡ true) where
  -- A response that was written is read, and leaves the connection as it was.
  reply-Read :
      {A : Type 0} (b : Broker W) (resp : Response) (use_response : Response → Result A)
      → conclude ctx use_response (read (env, respond env.written b (idle sub) resp)) ≡ (
        (env, (b, idle sub)),
        if resp.success
            then use_response (record resp { version = current_version })
            else inl (reported resp.error),
      )
  unfolding respond encode conclude
  reply-Read b resp use_response =
      ap (λ (w : Bool). conclude ctx use_response (read (env, respond w b (idle sub) resp))) written

  answer-Read :
      (o : Outcome W)
      → conclude ctx no_result (read (env, answer env (idle sub) o)) ≡ concluded env sub o
  unfolding answer
  answer-Read (b, none) = reply-Read b _ no_result
  answer-Read (b, some err) = reply-Read b _ no_result

  -- On a connection whose handler waits for a request, and over which the response can be written, a call
  -- that finds its context live does what the broker's method of the same name does: CreateQueue,
  -- DeleteQueue, BindQueue, UnbindQueue, CreateExchange and DeleteExchange of Producer change the broker
  -- as the broker's methods do, leave the connection as it was, and return nil if the broker's method
  -- does, and the text of its error if not.
  pub administer-Remote :
      (b : Broker W) (exchange_name queue_name key : String)
      → let wire : Wire W = (env, (b, idle sub)) in
        (create_queue ctx wire queue_name ≡ concluded env sub (Queues.create_queue b queue_name))
        × (delete_queue ctx wire queue_name
            ≡ concluded env sub (Queues.delete_queue b queue_name env.order))
        × (bind_queue ctx wire exchange_name queue_name key
            ≡ concluded env sub (Exchanges.bind_queue b exchange_name queue_name key))
        × (unbind_queue ctx wire exchange_name queue_name key
            ≡ concluded env sub (Exchanges.unbind_queue b exchange_name queue_name key))
        × (create_exchange ctx wire exchange_name key
            ≡ concluded env sub (Exchanges.create_exchange b exchange_name key))
        × (delete_exchange ctx wire exchange_name
            ≡ concluded env sub (Exchanges.delete_exchange b exchange_name))
  unfolding create_queue delete_queue bind_queue unbind_queue create_exchange delete_exchange
      do_request loopback handle_request handle_type request_type
  administer-Remote b exchange_name queue_name key = (
    call-live ctx live _ _ no_result ∙ answer-Read (Queues.create_queue b queue_name),
    call-live ctx live _ _ no_result ∙ answer-Read (Queues.delete_queue b queue_name env.order),
    call-live ctx live _ _ no_result
        ∙ answer-Read (Exchanges.bind_queue b exchange_name queue_name key),
    call-live ctx live _ _ no_result
        ∙ answer-Read (Exchanges.unbind_queue b exchange_name queue_name key),
    call-live ctx live _ _ no_result ∙ answer-Read (Exchanges.create_exchange b exchange_name key),
    call-live ctx live _ _ no_result ∙ answer-Read (Exchanges.delete_exchange b exchange_name),
  )

  metric-Read :
      (b : Broker W) (queue_name : String) (found : Error ⊎ Metric)
      → conclude ctx
          (λ resp. find_metric queue_name resp.metrics.queues)
          (read (
            env,
            respond env.written b
                (idle sub)
                (queue_metrics_response env.append_text queue_name found),
          ))
        ≡ ((env, (b, idle sub)), remote_metric env.append_text queue_name found)
  metric-Read b queue_name (inl err) = reply-Read b _ _
  metric-Read b queue_name (inr metric) =
      reply-Read b _ _ ∙ ap (λ r. ((env, (b, idle sub)), r)) (find_metric_self queue_name metric)

  handle_metrics-named :
      (b : Broker W) (queue_name : String)
      → queue_name ≢ ""
      → handle_metrics env (b, idle sub) queue_name
        ≡ respond env.written b (idle sub) (
            queue_metrics_response env.append_text queue_name (Messages.queue_metrics b queue_name))
  unfolding handle_metrics
  handle_metrics-named b queue_name named = rw (str_eq_of_ne named, handle_metrics) refl

  -- ListQueues, ListExchanges, Metrics and QueueMetrics of Producer, on such a connection with a live
  -- context: they change nothing and return what the broker's methods return; for QueueMetrics the
  -- name is not empty, and the text of the error is returned for a queue that cannot be found.
  pub list-Remote :
      (b : Broker W) (queue_name : String)
      → queue_name ≢ ""
      → let wire : Wire W = (env, (b, idle sub)) in
        (list_queues ctx wire ≡ (wire, inr (Queues.list_queues b)))
        × (list_exchanges ctx wire ≡ (wire, inr (Exchanges.list_exchanges b)))
        × (metrics ctx wire ≡ (wire, inr (Messages.metrics b)))
        × (queue_metrics ctx wire queue_name ≡ (
          wire,
          remote_metric env.append_text queue_name (Messages.queue_metrics b queue_name),
        ))
  unfolding list_queues list_exchanges metrics queue_metrics do_request loopback handle_request
      handle_type request_type handle_metrics
  list-Remote b queue_name named = (
    call-live ctx live _ _ _
        ∙ reply-Read b _ _
        ∙ ap (λ names. ((env, (b, idle sub)), inr names)) (names_lem (Queues.list_queues b)),
    call-live ctx live _ _ _ ∙ reply-Read b _ _,
    call-live ctx live _ _ _ ∙ reply-Read b _ _,
    call-live ctx live _ _ _
        ∙ ap
            (λ s. conclude ctx (λ resp. find_metric queue_name resp.metrics.queues) (read (env, s)))
            (handle_metrics-named b queue_name named)
        ∙ metric-Read b queue_name (Messages.queue_metrics b queue_name),
  )
