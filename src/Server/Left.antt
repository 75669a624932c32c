-- ===== src/Server/Left.antt =====
-- No session outlives the handler that it was made for.
use text.Mathlib.TextPositions.{eq_refl}
use dsend.Base.{
  pos, eq_ℤ, String, Bool, true, false, not, ◌&&◌, Option, none, some, ◌≡◌, ◌⊎◌, if◌then◌else◌,
  refl, sym, ap, subst, ◌∙◌, inl, inr, str_eq, lookup, lookup-insert, lookup-delete, insert,
  if_cases, Option-cases, Bool-cases,
}
use dsend.Storage.{Wal}
use dsend.Protocol.{
  RequestType, publish_request, ack_request, metrics_request, subscribe_request,
  unsubscribe_request, create_queue_request, delete_queue_request, list_queues_request,
  bind_queue_request, unbind_queue_request, create_exchange_request, delete_exchange_request,
  list_exchanges_request, other_request, consume_request, Request, Response, current_version,
}
use dsend.Engine.{Error, err_broker_closed, err_queue_not_found}
use dsend.Engine.QueueRuntime as Runtime
use dsend.Engine.QueueRuntime.{QueueRuntime}
use dsend.Engine.Broker.{Broker, Outcome, put_queue}
use dsend.Engine.Broker.Messages.{Publishing, finished, waiting, queue, queue_key, unsubscribe, ack}
use dsend.Engine.Broker.Publishing.{queue_cases}
use dsend.Server.{
  Subscription, failure_response, success_response, reading, returned, Connection, Surroundings,
  encode, Served, stop_subscription, leave, respond, answer,
}
use dsend.Server.Handler.{
  request_type, handle_published, handle_acked, handle_metrics, handle_subscribe,
  handle_unsubscribe, handle_type, handle_request, handle_round,
}

pub Runtime_unsubscribed :
    (q : QueueRuntime) (id : String) → lookup id (Runtime.unsubscribe q id).consumer_sessions ≡ none
unfolding Runtime.unsubscribe
Runtime_unsubscribed q id = elim (Option-cases (lookup id q.consumer_sessions)) [
  | inl e ↦ rw (e, Runtime.unsubscribe) e
  | inr (sess, e) ↦ rw (e, Runtime.unsubscribe, lookup-delete, eq_refl) refl
]

inr_injective : {q r : QueueRuntime} → ◌≡◌ {A = Error ⊎ QueueRuntime} (inr q) (inr r) → q ≡ r
inr_injective e = cc e

-- the end of `queue`
abbrev chosen : Bool → Option QueueRuntime → Error ⊎ QueueRuntime
chosen closed found =
    if closed
    then inl err_broker_closed
    else elim found [ none ↦ inl err_queue_not_found | some runtime ↦ inr runtime ]

-- The subscription of a goroutine that has not returned.
abbrev pub Forwards : Connection → Subscription → Type 0
Forwards c sub = (c.subscription ≡ some sub) × (sub.running ≡ true)

module _ {W : Type 0} where
  -- The broker that `queue` answers for has no session with the ID in that queue.
  abbrev pub Gone : String → String → Broker W → Type 0
  Gone name id b = (q : QueueRuntime) → queue b name ≡ inr q → lookup id q.consumer_sessions ≡ none

  -- A write through the pointer that `queue` has found.
  pub queue-put :
      (b : Broker W) (name : String) (q q' : QueueRuntime)
      → queue b name ≡ inr q
      → queue (put_queue b (queue_key name) q') name ≡ inr q'
  unfolding queue
  queue-put b name q q' e = elim (Bool-cases b.closed) [
    | inl k ↦ cc (ap (λ (closed : Bool). chosen closed (lookup (queue_key name) b.queues)) k, e)
    | inr k ↦
        ap
          (λ (closed : Bool).
            chosen closed (lookup (queue_key name) (insert (queue_key name) q' b.queues)))
          k
        ∙ ap (chosen false) (lookup-insert (queue_key name) (queue_key name) q' b.queues)
        ∙ rw eq_refl refl
  ]

  unsubscribed-Gone : (b : Broker W) (name id : String) → Gone name id (unsubscribe b name id)
  unfolding unsubscribe
  unsubscribed-Gone b name id q = elim (queue_cases b name) [
    | inl (err, e) ↦ rw (e, unsubscribe) (λ k. cc (e, k))
    | inr (found, e, _) ↦
        rw (e, unsubscribe)
          (λ k.
            subst (λ (r : QueueRuntime). lookup id r.consumer_sessions ≡ none)
              (inr_injective (sym (queue-put b name found (Runtime.unsubscribe found id) e) ∙ k))
              (Runtime_unsubscribed found id))
  ]

  -- If the handler has returned, its session is gone.
  abbrev pub Ended : Subscription → Served W → Type 0
  Ended sub s = s.1.stage ≡ returned → Gone sub.queue_name sub.session_id s.0

  stopped-Gone :
      (b : Broker W) (c : Connection) (sub : Subscription)
      → Forwards c sub
      → Gone sub.queue_name sub.session_id (stop_subscription b c.subscription)
  unfolding stop_subscription
  stopped-Gone b c sub (e, running) =
      rw (e, stop_subscription)
        (if_cases (Gone sub.queue_name sub.session_id) sub.running
          (λ _. unsubscribed-Gone b sub.queue_name sub.session_id) (λ k. cc (k, running)))

  respond-Ended :
      (written : Bool) (b : Broker W) (c : Connection) (resp : Response) (sub : Subscription)
      → Forwards c sub
      → Ended sub (respond written b c resp)
  unfolding respond encode leave
  respond-Ended true b c resp sub h = λ e. cc e
  respond-Ended false b c resp sub h = λ _. stopped-Gone b c sub h

  answer-Ended :
      (env : Surroundings) (c : Connection) (o : Outcome W) (sub : Subscription)
      → Forwards c sub
      → Ended sub (answer env c o)
  unfolding answer
  answer-Ended env c (b, err) sub h = respond-Ended env.written b c _ sub h

  pub handle_published-Ended :
      (env : Surroundings) (c : Connection) (req : Request) (o : Broker W × Publishing)
      (sub : Subscription)
      → Forwards c sub
      → Ended sub (handle_published env c req o)
  unfolding handle_published
  handle_published-Ended env c req (b, finished err) sub h = answer-Ended env c (b, err) sub h
  handle_published-Ended env c req (b, waiting names) sub h = λ e. cc e

  module _ (env : Surroundings) (c : Connection) (sub : Subscription) (h : Forwards c sub)
      (at_work : c.stage ≡ reading) where
    handle_acked-Ended : (o : Outcome W) → Ended sub (handle_acked env c o)
    unfolding handle_acked
    handle_acked-Ended (b, none) = λ e. cc (e, at_work)
    handle_acked-Ended (b, some err) = respond-Ended env.written b c _ sub h

    -- A second subscription is refused.
    handle_subscribe-Ended :
        (b : Broker W) (req : Request) → Ended sub (handle_subscribe env (b, c) req)
    unfolding handle_subscribe
    handle_subscribe-Ended b req =
        rw (h.0, handle_subscribe) (respond-Ended env.written b c _ sub h)

    handle_unsubscribe-Ended : (b : Broker W) → Ended sub (handle_unsubscribe env (b, c))
    unfolding handle_unsubscribe respond encode leave stop_subscription
    handle_unsubscribe-Ended b =
        answered env.written (stop_subscription b c.subscription) (stopped-Gone b c sub h)
      where
        answered :
            (written : Bool) (b' : Broker W)
            → Gone sub.queue_name sub.session_id b'
            → Ended sub (respond written b' (record c { subscription = none }) success_response)
        answered true b' gone = λ _. gone
        answered false b' gone = λ _. gone

    handle_type-Ended :
        ⦃wal : Wal W⦄ (type : RequestType) (b : Broker W) (req : Request)
        → Ended sub (handle_type type env (b, c) req)
    unfolding handle_type handle_metrics
    handle_type-Ended publish_request b req = handle_published-Ended env c req _ sub h
    handle_type-Ended ack_request b req = handle_acked-Ended (ack b req.ack_token)
    handle_type-Ended metrics_request b req =
        if_cases (Ended sub) (not (str_eq req.queue ""))
          (λ _. respond-Ended env.written b c _ sub h) (λ _. respond-Ended env.written b c _ sub h)
    handle_type-Ended subscribe_request b req = handle_subscribe-Ended b req
    handle_type-Ended unsubscribe_request b req = handle_unsubscribe-Ended b
    handle_type-Ended create_queue_request b req = answer-Ended env c _ sub h
    handle_type-Ended delete_queue_request b req = answer-Ended env c _ sub h
    handle_type-Ended list_queues_request b req = respond-Ended env.written b c _ sub h
    handle_type-Ended bind_queue_request b req = answer-Ended env c _ sub h
    handle_type-Ended unbind_queue_request b req = answer-Ended env c _ sub h
    handle_type-Ended create_exchange_request b req = answer-Ended env c _ sub h
    handle_type-Ended delete_exchange_request b req = answer-Ended env c _ sub h
    handle_type-Ended list_exchanges_request b req = respond-Ended env.written b c _ sub h
    handle_type-Ended consume_request b req = respond-Ended env.written b c _ sub h
    handle_type-Ended other_request b req = respond-Ended env.written b c _ sub h

    -- On a connection whose handler reads and whose goroutine runs, whatever the round reads, a request or
    -- the end of the input, and whatever else fails: if the handler returns after it, then the session
    -- of the goroutine is no longer in the runtime that the broker has for its queue.
    pub handle_round-Ended :
        ⦃wal : Wal W⦄ (b : Broker W) (input : Option Request) (q : QueueRuntime)
        → (handle_round env (b, c) input).1.stage ≡ returned
        → queue (handle_round env (b, c) input).0 sub.queue_name ≡ inr q
        → lookup sub.session_id q.consumer_sessions ≡ none
    unfolding handle_round handle_request leave encode
    handle_round-Ended b none q e = stopped-Gone b c sub h q
    handle_round-Ended b (some req) q e =
        if_cases (Ended sub)
          (not (eq_ℤ req.version current_version) && not (eq_ℤ req.version (pos 0)))
          (λ _ _. refused env.written) (λ _. handle_type-Ended (request_type req.type) b req) e q
      where
        refused :
            (written : Bool)
            → Gone sub.queue_name sub.session_id
                (leave
                  (b, (encode written c (failure_response "unsupported protocol version")).0)).0
        refused true = stopped-Gone b c sub h
        refused false = stopped-Gone b c sub h
