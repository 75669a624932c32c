-- ===== src/Server/Reached.antt =====
-- A round of a connection is a sequence of steps of the broker.
use mathlib.Core.List.{Permᴰ}
use dsend.Base.{
  ℕ, pos, eq_ℤ, String, Bool, true, false, not, ◌&&◌, Option, none, some, List, ◌≡◌, ◌≢◌, inl, inr,
  str_eq, lookup, if_cases, Option-cases,
}
use dsend.Model.{Delivery}
use dsend.Session.{new_consumer_session}
use dsend.Storage.{Wal, IsWal}
use dsend.Protocol.{
  RequestType, publish_request, ack_request, metrics_request, subscribe_request,
  unsubscribe_request, create_queue_request, delete_queue_request, list_queues_request,
  bind_queue_request, unbind_queue_request, create_exchange_request, delete_exchange_request,
  list_exchanges_request, other_request, consume_request, Request, Response, current_version,
}
use dsend.Engine.{err_wal_append}
use dsend.Engine.QueueRuntime.Steps as Runtime
use dsend.Engine.Broker.{Broker, Outcome}
use dsend.Engine.Broker.Queues.{delete_queue}
use dsend.Engine.Broker.Exchanges.{bind_queue, unbind_queue}
use dsend.Engine.Broker.Messages.{Publishing, finished, waiting, subscribe, ack, queue_key}
use dsend.Engine.Broker.Sound.{Sound}
use dsend.Engine.Broker.Steps.{
  Reach, here, next, creates_queue, deletes_queue, creates_exchange, deletes_exchange, binds,
  unbinds, works,
}
use dsend.Engine.Broker.Publishing.{Unused, publish-Reach, Reach-trans}
use dsend.Engine.Broker.Calls.{subscribe-Reach, unsubscribe-Reach, ack-Reach}
use dsend.Server.{
  Subscription, Connection, Surroundings, encode, Served, stop_subscription, leave, respond, answer,
}
use dsend.Server.Handler.{
  request_type, handle_published, handle_acked, handle_metrics, handle_subscribed, handle_subscribe,
  handle_unsubscribe, handle_type, handle_request,
}
use dsend.Server.Deliveries.{receive, forward_delivery, forward}

module _ {W : Type 0} ⦃wal : Wal W⦄ where
  stop_subscription-Reach :
      (b : Broker W) (sub : Option Subscription) → Reach b (stop_subscription b sub)
  unfolding stop_subscription
  stop_subscription-Reach b none = here
  stop_subscription-Reach b (some sub) =
      if_cases (Reach b) sub.running (λ _. unsubscribe-Reach b sub.queue_name sub.session_id)
        (λ _. here)

  pub leave-Reach : (b : Broker W) (c : Connection) → Reach b (leave (b, c)).0
  unfolding leave
  leave-Reach b c = stop_subscription-Reach b c.subscription

  respond-Reach :
      (written : Bool) (b : Broker W) (c : Connection) (resp : Response)
      → Reach b (respond written b c resp).0
  unfolding respond encode
  respond-Reach true b c resp = here
  respond-Reach false b c resp = leave-Reach b c

  answer-Reach :
      (env : Surroundings) {b : Broker W} (c : Connection) (o : Outcome W)
      → Reach b o.0
      → Reach b (answer env c o).0
  unfolding answer
  answer-Reach env c (b, err) r = Reach-trans r (respond-Reach env.written b c _)

  pub handle_published-Reach :
      (env : Surroundings) {b : Broker W} (c : Connection) (req : Request)
      (o : Broker W × Publishing)
      → Reach b o.0
      → Reach b (handle_published env c req o).0
  unfolding handle_published
  handle_published-Reach env c req (b, finished err) r = answer-Reach env c (b, err) r
  handle_published-Reach env c req (b, waiting names) r = r

  handle_acked-Reach :
      (env : Surroundings) {b : Broker W} (c : Connection) (o : Outcome W)
      → Reach b o.0
      → Reach b (handle_acked env c o).0
  unfolding handle_acked
  handle_acked-Reach env c (b, none) r = r
  handle_acked-Reach env c (b, some err) r = Reach-trans r (respond-Reach env.written b c _)

  handle_subscribed-Reach :
      (env : Surroundings) {b : Broker W} (c : Connection) (req : Request) (o : Outcome W)
      → Reach b o.0
      → Reach b (handle_subscribed env c req o).0
  unfolding handle_subscribed
  handle_subscribed-Reach env c req (b, none) r = r
  handle_subscribed-Reach env c req (b, some err) r =
      Reach-trans r (respond-Reach env.written b c _)

  handle_subscribe-Reach :
      (env : Surroundings) (b : Broker W) (c : Connection) (req : Request)
      → Reach b (handle_subscribe env (b, c) req).0
  unfolding handle_subscribe
  handle_subscribe-Reach env b c req = elim (Option-cases c.subscription) [
    | inl e ↦
        rw (e, handle_subscribe)
          (handle_subscribed-Reach env c req
            (subscribe b req.queue (new_consumer_session env.address req.id))
            (subscribe-Reach b req.queue (new_consumer_session env.address req.id)))
    | inr (sub, e) ↦ rw (e, handle_subscribe) (respond-Reach env.written b c _)
  ]

  module _ (laws : IsWal wal) where
    -- What a round relies on: the IDs are new, a message comes without an ID, the log does not refuse
    -- the records of DeleteQueue, BindQueue and UnbindQueue, and a range takes the exchanges in some order.
    pub record Regular (env : Surroundings) (b : Broker W) (req : Request) : Type 0 where
      pub unnamed : req.payload.id ≡ ""
      pub distinct : (i j : ℕ) → i ≢ j → env.fresh i ≢ env.fresh j
      pub unused : Unused laws req.payload req.ttl env.fresh env.clock b 0
      pub shuffles : (names : List String) → Permᴰ names (env.order names)
      pub deletes : (delete_queue b req.queue env.order).1 ≢ some err_wal_append
      pub binds : (bind_queue b req.exchange req.queue req.binding_key).1 ≢ some err_wal_append
      pub unbinds : (unbind_queue b req.exchange req.queue req.binding_key).1 ≢ some err_wal_append

    module _ (env : Surroundings) (b : Broker W) (c : Connection) (req : Request) (t : Sound laws b)
        (regular : Regular env b req) where
      handle_type-Reach : (type : RequestType) → Reach b (handle_type type env (b, c) req).0
      unfolding handle_type handle_metrics handle_unsubscribe
      handle_type-Reach publish_request = handle_published-Reach env c req _ (
          publish-Reach laws req.payload req.ttl env.fresh env.clock regular.unnamed
            regular.distinct b req.exchange req.routing_key t regular.unused)
      handle_type-Reach ack_request =
          handle_acked-Reach env c (ack b req.ack_token) (ack-Reach b req.ack_token)
      handle_type-Reach metrics_request =
          if_cases (λ (s : Served W). Reach b s.0) (not (str_eq req.queue ""))
            (λ _. respond-Reach env.written b c _) (λ _. respond-Reach env.written b c _)
      handle_type-Reach subscribe_request = handle_subscribe-Reach env b c req
      handle_type-Reach unsubscribe_request =
          Reach-trans (stop_subscription-Reach b c.subscription)
            (respond-Reach env.written _ (record c { subscription = none }) _)
      handle_type-Reach create_queue_request =
          answer-Reach env c _ (next here (creates_queue b req.queue))
      handle_type-Reach delete_queue_request =
          answer-Reach env c _
            (next here (deletes_queue b req.queue env.order regular.shuffles regular.deletes))
      handle_type-Reach list_queues_request = respond-Reach env.written b c _
      handle_type-Reach bind_queue_request =
          answer-Reach env c _
            (next here (binds b req.exchange req.queue req.binding_key regular.binds))
      handle_type-Reach unbind_queue_request =
          answer-Reach env c _
            (next here (unbinds b req.exchange req.queue req.binding_key regular.unbinds))
      handle_type-Reach create_exchange_request =
          answer-Reach env c _ (next here (creates_exchange b req.exchange req.exchange_type))
      handle_type-Reach delete_exchange_request =
          answer-Reach env c _ (next here (deletes_exchange b req.exchange))
      handle_type-Reach list_exchanges_request = respond-Reach env.written b c _
      handle_type-Reach consume_request = respond-Reach env.written b c _
      handle_type-Reach other_request = respond-Reach env.written b c _

      pub handle_request-Reach : Reach b (handle_request env (b, c) req).0
      unfolding handle_request
      handle_request-Reach =
          if_cases (λ (s : Served W). Reach b s.0)
            (not (eq_ℤ req.version current_version) && not (eq_ℤ req.version (pos 0)))
            (λ _. leave-Reach b _) (λ _. handle_type-Reach (request_type req.type))

  receive-Reach : (b : Broker W) (sub : Subscription) → Reach b (receive b sub).0
  unfolding receive
  receive-Reach b sub = elim (Option-cases (lookup (queue_key sub.queue_name) b.queues)) [
    | inl e ↦ rw (e, receive) here
    | inr (q, e) ↦
        rw (e, receive)
          (next here (
            works b (queue_key sub.queue_name) q _ b.shared e
              (Runtime.receives q b.shared sub.session_id sub.address)))
  ]

  forward_delivery-Reach :
      (written : Bool) (b : Broker W) (c : Connection) (sub : Subscription)
      (delivery : Option Delivery)
      → Reach b (forward_delivery written b c sub delivery).0
  unfolding forward_delivery encode
  forward_delivery-Reach written b c sub none = here
  forward_delivery-Reach true b c sub (some delivery) = here
  forward_delivery-Reach false b c sub (some delivery) =
      unsubscribe-Reach b sub.queue_name sub.session_id

  pub forward-Reach :
      (written : Bool) (b : Broker W) (c : Connection) → Reach b (forward written (b, c)).0
  unfolding forward
  forward-Reach written b c = elim (Option-cases c.subscription) [
    | inl e ↦ rw (e, forward) here
    | inr (sub, e) ↦
        rw (e, forward)
          (if_cases (λ (s : Served W). Reach b s.0) sub.running
            (λ _.
              Reach-trans (receive-Reach b sub)
                (forward_delivery-Reach written (receive b sub).0 c sub (receive b sub).1))
            (λ _. here))
  ]
