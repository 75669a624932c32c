-- ===== src/Server/Answers.antt =====
-- What the responses of a connection look like.
use dsend.Base.{
  pos, eq_ℤ, String, Bool, true, false, not, ◌&&◌, Option, none, some, ◌≡◌, ◌≢◌, ◌⊎◌, refl, inl,
  inr, str_eq, All, All-append, if_cases, Option-cases,
}
use dsend.Model.{Delivery}
use dsend.Storage.{Wal}
use dsend.Protocol.{
  RequestType, publish_request, ack_request, metrics_request, subscribe_request,
  unsubscribe_request, create_queue_request, delete_queue_request, list_queues_request,
  bind_queue_request, unbind_queue_request, create_exchange_request, delete_exchange_request,
  list_exchanges_request, other_request, consume_request, Request, Response, current_version,
}
use dsend.Engine.{
  Error, err_queue_exists, err_queue_not_empty, err_queue_not_found, err_invalid_queue,
  err_broker_closed, err_invalid_ack_token, err_exchange_not_found, err_invalid_exchange,
  err_invalid_exchange_type, err_default_exchange, err_exchange_exists, err_exchange_not_empty,
  err_no_route, err_invalid_binding_key, err_binding_not_exist, err_binding_already_exist,
  err_wal_append,
}
use dsend.Engine.Broker.{Broker, Outcome}
use dsend.Engine.Broker.Messages.{Publishing, finished, waiting, ack, queue_metrics}
use dsend.Server.{
  Subscription, reading, returned, Connection, Surroundings, error_text, failure_response, encode,
  Served, leave, respond, answer,
}
use dsend.Server.Handler.{
  request_type, queue_metrics_response, handle_published, handle_acked, handle_metrics,
  handle_subscribed, handle_subscribe, handle_unsubscribe, handle_type, handle_request,
}
use dsend.Server.Deliveries.{receive, forward_delivery, forward}

-- A response says that it is a success exactly when it has no error.
abbrev pub IsClear : Response → Type 0
IsClear resp =
    ((resp.success ≡ true) × (resp.error ≡ "")) ⊎ ((resp.success ≡ false) × (resp.error ≢ ""))

-- A response that was sent has the version too.
abbrev pub IsSent : Response → Type 0
IsSent resp = (resp.version ≡ current_version) × IsClear resp

-- All responses are like that, and a handler that has returned has no subscription.
pub record IsOrderly (c : Connection) : Type 0 where
  pub responses : All IsSent c.sent
  pub stopped : c.stage ≡ returned → c.subscription ≡ none

error_text-fails :
    (append_text : String) → append_text ≢ "" → (err : Error) → error_text append_text err ≢ ""
error_text-fails append_text nonempty err_queue_exists = λ e. cc e
error_text-fails append_text nonempty err_queue_not_empty = λ e. cc e
error_text-fails append_text nonempty err_queue_not_found = λ e. cc e
error_text-fails append_text nonempty err_invalid_queue = λ e. cc e
error_text-fails append_text nonempty err_broker_closed = λ e. cc e
error_text-fails append_text nonempty err_invalid_ack_token = λ e. cc e
error_text-fails append_text nonempty err_exchange_not_found = λ e. cc e
error_text-fails append_text nonempty err_invalid_exchange = λ e. cc e
error_text-fails append_text nonempty err_invalid_exchange_type = λ e. cc e
error_text-fails append_text nonempty err_default_exchange = λ e. cc e
error_text-fails append_text nonempty err_exchange_exists = λ e. cc e
error_text-fails append_text nonempty err_exchange_not_empty = λ e. cc e
error_text-fails append_text nonempty err_no_route = λ e. cc e
error_text-fails append_text nonempty err_invalid_binding_key = λ e. cc e
error_text-fails append_text nonempty err_binding_not_exist = λ e. cc e
error_text-fails append_text nonempty err_binding_already_exist = λ e. cc e
error_text-fails append_text nonempty err_wal_append = nonempty

failed :
    (env : Surroundings)
    → env.append_text ≢ ""
    → (err : Error) → IsClear (failure_response (error_text env.append_text err))
failed env texts err = inr (refl, error_text-fails env.append_text texts err)

quiet : (c : Connection) → All IsSent c.sent → c.stage ≡ reading → IsOrderly c
quiet c h at_work = record { responses = h; stopped = λ e. cc (e, at_work) }

refused_version :
    (written : Bool) (c : Connection)
    → All IsSent c.sent
    → All IsSent (encode written c (failure_response "unsupported protocol version")).0.sent
unfolding encode
refused_version true c h = All-append IsSent c.sent _ h ((refl, inr (refl, λ k. cc k)), tt)
refused_version false c h = h

module _ {W : Type 0} where
  pub leave-IsOrderly : (b : Broker W) (c : Connection) → IsOrderly c → IsOrderly (leave (b, c)).1
  unfolding leave
  leave-IsOrderly b c h = record { responses = h.responses; stopped = λ _. refl }

  -- The stage before does not matter: the response leads back to the loop.
  respond-IsOrderly :
      (written : Bool) (b : Broker W) (c : Connection) (resp : Response)
      → All IsSent c.sent
      → IsClear resp
      → IsOrderly (respond written b c resp).1
  unfolding respond encode leave
  respond-IsOrderly true b c resp h clear = record {
    responses = All-append IsSent c.sent _ h ((refl, clear), tt);
    stopped = λ e. cc e;
  }
  respond-IsOrderly false b c resp h clear = record { responses = h; stopped = λ _. refl }

  module _ (env : Surroundings) (texts : env.append_text ≢ "") where
    answer-IsOrderly :
        (c : Connection) (o : Outcome W) → All IsSent c.sent → IsOrderly (answer env c o).1
    unfolding answer
    answer-IsOrderly c (b, none) h = respond-IsOrderly env.written b c _ h (inl (refl, refl))
    answer-IsOrderly c (b, some err) h =
        respond-IsOrderly env.written b c _ h (failed env texts err)

    pub handle_published-IsOrderly :
        (c : Connection) (req : Request) (o : Broker W × Publishing)
        → All IsSent c.sent
        → IsOrderly (handle_published env c req o).1
    unfolding handle_published
    handle_published-IsOrderly c req (b, finished err) h = answer-IsOrderly c (b, err) h
    handle_published-IsOrderly c req (b, waiting names) h = record {
      responses = h;
      stopped = λ e. cc e;
    }

    handle_metrics-IsOrderly :
        (b : Broker W) (c : Connection) (queue : String)
        → All IsSent c.sent
        → IsOrderly (handle_metrics env (b, c) queue).1
    unfolding handle_metrics
    handle_metrics-IsOrderly b c queue h =
        if_cases (λ (s : Served W). IsOrderly s.1) (not (str_eq queue ""))
          (λ _.
            respond-IsOrderly env.written b c _ h
              (elim (queue_metrics b queue)
                as (λ found. IsClear (queue_metrics_response env.append_text queue found)) [
                  | inl err ↦ failed env texts err
                  | inr metric ↦ inl (refl, refl)
                ]))
          (λ _. respond-IsOrderly env.written b c _ h (inl (refl, refl)))

    module _ (c : Connection) (h : All IsSent c.sent) (at_work : c.stage ≡ reading) where
      handle_acked-IsOrderly : (o : Broker W × Option Error) → IsOrderly (handle_acked env c o).1
      unfolding handle_acked
      handle_acked-IsOrderly (b, none) = quiet c h at_work
      handle_acked-IsOrderly (b, some err) =
          respond-IsOrderly env.written b c _ h (failed env texts err)

      handle_subscribed-IsOrderly :
          (req : Request) (o : Broker W × Option Error)
          → IsOrderly (handle_subscribed env c req o).1
      unfolding handle_subscribed
      handle_subscribed-IsOrderly req (b, none) = record {
        responses = h;
        stopped = λ e. cc (e, at_work);
      }
      handle_subscribed-IsOrderly req (b, some err) =
          respond-IsOrderly env.written b c _ h (failed env texts err)

      handle_subscribe-IsOrderly :
          (b : Broker W) (req : Request) → IsOrderly (handle_subscribe env (b, c) req).1
      unfolding handle_subscribe
      handle_subscribe-IsOrderly b req = elim (Option-cases c.subscription) [
        | inl e ↦ rw (e, handle_subscribe) (handle_subscribed-IsOrderly req _)
        | inr (sub, e) ↦
            rw (e, handle_subscribe) (respond-IsOrderly env.written b c _ h (inr (refl, λ k. cc k)))
      ]

      handle_type-IsOrderly :
          ⦃wal : Wal W⦄ (type : RequestType) (b : Broker W) (req : Request)
          → IsOrderly (handle_type type env (b, c) req).1
      unfolding handle_type handle_unsubscribe
      handle_type-IsOrderly publish_request b req = handle_published-IsOrderly c req _ h
      handle_type-IsOrderly ack_request b req = handle_acked-IsOrderly (ack b req.ack_token)
      handle_type-IsOrderly metrics_request b req = handle_metrics-IsOrderly b c req.queue h
      handle_type-IsOrderly subscribe_request b req = handle_subscribe-IsOrderly b req
      handle_type-IsOrderly unsubscribe_request b req =
          respond-IsOrderly env.written _ (record c { subscription = none }) _ h (inl (refl, refl))
      handle_type-IsOrderly create_queue_request b req = answer-IsOrderly c _ h
      handle_type-IsOrderly delete_queue_request b req = answer-IsOrderly c _ h
      handle_type-IsOrderly list_queues_request b req =
          respond-IsOrderly env.written b c _ h (inl (refl, refl))
      handle_type-IsOrderly bind_queue_request b req = answer-IsOrderly c _ h
      handle_type-IsOrderly unbind_queue_request b req = answer-IsOrderly c _ h
      handle_type-IsOrderly create_exchange_request b req = answer-IsOrderly c _ h
      handle_type-IsOrderly delete_exchange_request b req = answer-IsOrderly c _ h
      handle_type-IsOrderly list_exchanges_request b req =
          respond-IsOrderly env.written b c _ h (inl (refl, refl))
      handle_type-IsOrderly consume_request b req =
          respond-IsOrderly env.written b c _ h (inr (refl, λ k. cc k))
      handle_type-IsOrderly other_request b req =
          respond-IsOrderly env.written b c _ h (inr (refl, λ k. cc k))

      pub handle_request-IsOrderly :
          ⦃wal : Wal W⦄ (b : Broker W) (req : Request) → IsOrderly (handle_request env (b, c) req).1
      unfolding handle_request leave
      handle_request-IsOrderly b req =
          if_cases (λ (s : Served W). IsOrderly s.1)
            (not (eq_ℤ req.version current_version) && not (eq_ℤ req.version (pos 0)))
            (λ _. record { responses = refused_version env.written c h; stopped = λ _. refl })
            (λ _. handle_type-IsOrderly (request_type req.type) b req)

  forward_delivery-IsOrderly :
      (written : Bool) (b : Broker W) (c : Connection) (sub : Subscription)
      (delivery : Option Delivery)
      → c.subscription ≡ some sub
      → IsOrderly c
      → IsOrderly (forward_delivery written b c sub delivery).1
  unfolding forward_delivery encode
  forward_delivery-IsOrderly written b c sub none e h = h
  forward_delivery-IsOrderly true b c sub (some delivery) e h = record {
    responses = All-append IsSent c.sent _ h.responses ((refl, inl (refl, refl)), tt);
    stopped = h.stopped;
  }
  forward_delivery-IsOrderly false b c sub (some delivery) e h = record {
    responses = h.responses;
    stopped = λ k. cc (e, h.stopped k);
  }

  pub forward-IsOrderly :
      (written : Bool) (b : Broker W) (c : Connection)
      → IsOrderly c
      → IsOrderly (forward written (b, c)).1
  unfolding forward
  forward-IsOrderly written b c h = elim (Option-cases c.subscription) [
    | inl e ↦ rw (e, forward) h
    | inr (sub, e) ↦
        rw (e, forward)
          (if_cases (λ (s : Served W). IsOrderly s.1) sub.running
            (λ _. forward_delivery-IsOrderly written (receive b sub).0 c sub (receive b sub).1 e h)
            (λ _. h))
  ]
