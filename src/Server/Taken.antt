-- ===== src/Server/Taken.antt =====
-- A subscription under the ID of a session that is there already.
use text.Mathlib.TextPositions.{eq_refl}
use dsend.Base.{
  ℕ, Bool, true, false, Option, none, some, ◌≡◌, ◌≢◌, refl, ap, ◌∙◌, arith, inr, lookup,
  lookup-insert, insert, [], ◌∷◌, ◌++◌, if◌then◌else◌, nat_eq,
}
use dsend.Session.{ConsumerSession, new_consumer_session}
use dsend.Protocol.{Request}
use dsend.Engine.{Error, err_broker_closed}
use dsend.Engine.QueueRuntime as Runtime
use dsend.Engine.QueueRuntime.{QueueRuntime}
use dsend.Engine.QueueRuntime.Deliver.{take_delivery}
use dsend.Engine.Broker.{Broker, put_queue}
use dsend.Engine.Broker.Messages.{queue, queue_key, subscribe, unsubscribe}
use dsend.Server.{forwarder, Connection, Surroundings, Served, returned, stop_subscription, leave}
use dsend.Server.Handler.{handle_subscribe, handle_subscribed}
use dsend.Server.Deliveries.{receive, forward, forward_delivery}
use dsend.Server.Left.{queue-put, Runtime_unsubscribed}

nat_eq_of_ne : {m n : ℕ} → m ≢ n → nat_eq m n ≡ false
nat_eq_of_ne {m} {n} h = ground (arith, h)

-- Subscribe of the runtime, with what `closed` is
abbrev known_at : QueueRuntime → ConsumerSession → Bool → QueueRuntime × Option Error
known_at q sess closed =
    if closed then (q, some err_broker_closed) else elim (lookup sess.id q.consumer_sessions) [
      | some _ ↦ (q, none)
      | none ↦ (
        record q {
          consumer_sessions = insert sess.id sess q.consumer_sessions;
          consumer_order = q.consumer_order ++ sess.id ∷ [];
          notify_distributor = true;
        },
        none,
      )
    ]

-- The runtime does not take a session whose ID it knows, nor does it say so.
known :
    (q : QueueRuntime) (sess other : ConsumerSession)
    → q.closed ≡ false
    → lookup sess.id q.consumer_sessions ≡ some other
    → Runtime.subscribe q sess ≡ (q, none)
unfolding Runtime.subscribe
known q sess other is_open e = ap (known_at q sess) is_open ∙ rw e refl

-- the connection, with the subscription of a request
abbrev pub subscribed : Connection → Request → ℕ → Connection
subscribed c req address = record c { subscription = some (forwarder req.queue req.id address) }

module _ {W : Type 0} (env : Surroundings) (b : Broker W) (c : Connection) (req : Request)
    (q : QueueRuntime) (other : ConsumerSession) (free : c.subscription ≡ none)
    (found : queue b req.queue ≡ inr q) (is_open : q.closed ≡ false)
    (in_use : lookup req.id q.consumer_sessions ≡ some other)
    (foreign : other.address ≢ env.address) where
  subscribe-taken :
      handle_subscribe env (b, c) req
      ≡ (put_queue b (queue_key req.queue) q, subscribed c req env.address)
  unfolding handle_subscribe handle_subscribed subscribe new_consumer_session
  subscribe-taken =
      rw
        (
          free,
          found,
          handle_subscribe,
          subscribe,
          known q (new_consumer_session env.address req.id) other is_open in_use,
        )
        refl

  -- the broker after it
  abbrev kept : Broker W
  kept = put_queue b (queue_key req.queue) q

  nothing_taken : take_delivery q req.id env.address ≡ (q, none)
  unfolding take_delivery
  nothing_taken = rw (in_use, take_delivery, nat_eq_of_ne foreign) refl

  forward-taken :
      (written : Bool)
      → (forward written (kept, subscribed c req env.address)).1 ≡ subscribed c req env.address
  unfolding forward receive forward_delivery
  forward-taken written =
      rw (lookup-insert, eq_refl, nothing_taken, receive, forward, forward_delivery) refl

  left : leave (kept, subscribed c req env.address) ≡ (
    put_queue kept (queue_key req.queue) (Runtime.unsubscribe q req.id),
    record c { subscription = none; stage = returned },
  )
  unfolding leave stop_subscription unsubscribe
  left = rw (queue-put b req.queue q q found, unsubscribe) refl

  -- SubscribeRequest on a connection without a subscription, with the ID of a session that the queue's
  -- runtime has already, from another connection: the request is accepted and not answered, but the
  -- runtime is as before and nothing is forwarded to the connection; and when its handler returns the
  -- session of the other connection is taken out of the runtime.
  pub subscribe-Taken :
      (written : Bool)
      → let s = handle_subscribe env (b, c) req in
        (s ≡ (put_queue b (queue_key req.queue) q, subscribed c req env.address))
        × ((forward written s).1 ≡ s.1)
        × ((q' : QueueRuntime) × (queue (leave s).0 req.queue ≡ inr q')
            × (lookup req.id q'.consumer_sessions ≡ none))
  subscribe-Taken written = rw subscribe-taken (
    refl,
    forward-taken written,
    (
      Runtime.unsubscribe q req.id,
      ap (λ (s : Served W). queue s.0 req.queue) left
          ∙ queue-put kept req.queue q _ (queue-put b req.queue q q found),
      Runtime_unsubscribed q req.id,
    ),
  )
