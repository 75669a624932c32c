-- ===== src/Client/Received.antt =====
-- What a Consumer receives from a server that answers.
use text.Mathlib.TextPositions.{eq_refl}
use dsend.Base.{
  ℕ, zero, suc, String, Bool, true, false, Option, none, some, List, [], ◌∷◌, map, length, ◌≡◌,
  refl, ap, ◌∙◌, inl, inr, lookup, lookup-insert, insert, arith, nat_eq, if◌then◌else◌,
}
use dsend.Model.{Delivery}
use dsend.Session.{ConsumerSession}
use dsend.Storage.{Wal}
use dsend.Engine.{Error}
use dsend.Engine.QueueRuntime.{QueueRuntime}
use dsend.Engine.QueueRuntime.Deliver.{take_delivery}
use dsend.Engine.Broker.{Broker, Outcome, put_queue}
use dsend.Engine.Broker.Messages as Messages
use dsend.Engine.Broker.Messages.{queue_key}
use dsend.Server.{
  Subscription, forwarder, Surroundings, failure_response, success_response, error_text, encode,
  respond, stop_subscription,
}
use dsend.Server.Handler.{
  handle_request, handle_type, request_type, handle_unsubscribe, handle_acked,
}
use dsend.Server.Deliveries as Deliveries
use dsend.Server.Deliveries.{forward, forward_delivery}
use dsend.Client.{cancelled, failed_link, reported, Result, Context, ReceivedMessage, conclude}
use dsend.Client.Consumer.{received_message, receive, send_request, ack, unsubscribe}
use dsend.Client.Loopback.{Wire, idle, loopback}

nat_eq_refl : (n : ℕ) → nat_eq n n ≡ true
nat_eq_refl n = ground arith

-- the message of a delivery, as Receive returns it
abbrev pub of_delivery : Delivery → ReceivedMessage
of_delivery delivery = record {
  id = delivery.message.id;
  payload = delivery.message.payload;
  ack_token = delivery.ack_token;
}

-- the runtime with a session that has these deliveries left
abbrev with_deliveries : QueueRuntime → String → ConsumerSession → List Delivery → QueueRuntime
with_deliveries q id sess rest = record q {
  consumer_sessions = insert id (record sess { deliveries = rest }) q.consumer_sessions;
}

-- what Receive returns, with nothing to read
abbrev pub nothing_read : Context → Result ReceivedMessage
nothing_read ctx = if ctx.after then inl cancelled else inl failed_link

-- what Receive returns after an Ack, with what the broker's Ack returned
abbrev pub acknowledged : Context → String → Option Error → Result ReceivedMessage
acknowledged ctx append_text none = nothing_read ctx
acknowledged ctx append_text (some err) = inl (reported (error_text append_text err))

module _ {W : Type 0} ⦃wal : Wal W⦄ (ctx : Context) where
  -- The server's goroutine forwards a delivery, and the client calls Receive, so many times.
  unfoldable pub pull : ℕ → Wire W → Wire W × List (Result ReceivedMessage)
  pull zero wire = (wire, [])
  pull (suc n) wire =
      let (wire', message) = receive ctx (wire.0, forward true wire.1) in
      let (last, messages) = pull n wire' in (last, message ∷ messages)

module _ {W : Type 0} ⦃wal : Wal W⦄ (ctx : Context) (env : Surroundings)
    (live : ctx.before ≡ false) where
  receive-live :
      (wire : Wire W)
      → receive ctx wire ≡ conclude ctx (λ resp. inr (received_message resp)) (loopback.decode wire)
  unfolding receive
  receive-live wire =
      ap
        (λ (before : Bool).
          if before
          then (wire, inl cancelled)
          else conclude ctx (λ resp. inr (received_message resp)) (loopback.decode wire))
        live

  -- A goroutine that runs, with what it has received.
  pulled_one :
      (b b' : Broker W) (name id : String) (address : ℕ) (delivery : Delivery)
      → Deliveries.receive b (forwarder name id address) ≡ (b', some delivery)
      → receive {C = Wire W} ctx (env, forward true (b, idle (some (forwarder name id address))))
        ≡ ((env, (b', idle (some (forwarder name id address)))), inr (of_delivery delivery))
  unfolding forward forward_delivery encode conclude loopback
  pulled_one b b' name id address delivery e =
      let sub = forwarder name id address in
      ap
        (λ (o : Broker W × Option Delivery).
          receive {C = Wire W} ctx (env, forward_delivery true o.0 (idle (some sub)) sub o.1))
        e
      ∙ receive-live _

  -- A session with deliveries, in its runtime: the oldest one is received.
  received-Head :
      (b : Broker W) (name id : String) (q : QueueRuntime) (sess : ConsumerSession)
      (delivery : Delivery) (rest : List Delivery)
      → lookup (queue_key name) b.queues ≡ some q
      → lookup id q.consumer_sessions ≡ some (record sess { deliveries = delivery ∷ rest })
      → Deliveries.receive b (forwarder name id sess.address)
        ≡ (put_queue b (queue_key name) (with_deliveries q id sess rest), some delivery)
  unfolding Deliveries.receive take_delivery
  received-Head b name id q sess delivery rest found at_session =
      rw (found, at_session, Deliveries.receive, take_delivery, nat_eq_refl sess.address) refl

  -- On a connection whose handler waits for a request and whose goroutine runs, with nothing to read and
  -- a live context, and with the session in the runtime of its queue: as often as the session has
  -- deliveries the goroutine forwards one and Receive returns its message and its token, the oldest
  -- first, each once; the broker then has the session with no deliveries.
  pub deliveries-Received :
      (deliveries : List Delivery) (b : Broker W) (name id : String) (q : QueueRuntime)
      (sess : ConsumerSession)
      → lookup (queue_key name) b.queues ≡ some q
      → lookup id q.consumer_sessions ≡ some (record sess { deliveries = deliveries })
      → (b' : Broker W) × (q' : QueueRuntime) × (pull ctx
            (length deliveries)
            (env, (b, idle (some (forwarder name id sess.address))))
          ≡ (
            (env, (b', idle (some (forwarder name id sess.address)))),
            map (λ delivery. inr (of_delivery delivery)) deliveries,
          ))
        × (lookup (queue_key name) b'.queues ≡ some q')
        × (lookup id q'.consumer_sessions ≡ some (record sess { deliveries = [] }))
  unfolding pull
  deliveries-Received [] b name id q sess found at_session = (b, q, refl, found, at_session)
  deliveries-Received (delivery ∷ rest) b name id q sess found at_session =
      let head = received-Head b name id q sess delivery rest found at_session in
      let (b', q', pulled, found', emptied) =
        deliveries-Received rest (put_queue b (queue_key name) (with_deliveries q id sess rest))
          name id (with_deliveries q id sess rest) sess (rw (lookup-insert, eq_refl) refl)
          (rw (lookup-insert, eq_refl) refl) in
      (
        b',
        q',
        ap
              (λ (o : Wire W × Result ReceivedMessage).
                ((pull ctx (length rest) o.0).0, o.1 ∷ (pull ctx (length rest) o.0).1))
              (pulled_one b _ name id sess.address delivery head)
            ∙ ap
                (λ (o : Wire W × List (Result ReceivedMessage)).
                  (o.0, inr (of_delivery delivery) ∷ o.1))
                pulled,
        found',
        emptied,
      )

  module _ (sub : Option Subscription) (written : env.written ≡ true) where
    acked-Read :
        (o : Outcome W)
        → conclude ctx
            (λ resp. inr (received_message resp))
            (loopback.decode (env, handle_acked env (idle sub) o))
          ≡ ((env, (o.0, idle sub)), acknowledged ctx env.append_text o.1)
    unfolding handle_acked respond encode conclude loopback
    acked-Read (b, none) = refl
    acked-Read (b, some err) =
        ap
          (λ (w : Bool).
            conclude ctx (λ resp. inr (received_message resp))
              (loopback.decode
                (env, respond w b (idle sub) (failure_response (error_text env.append_text err)))))
          written

    -- On a connection whose handler waits for a request, over which the response can be written, and with
    -- a live context: Ack of a Consumer returns nil, whatever the broker's Ack returns, and the broker
    -- is as the broker's Ack leaves it. An error of the broker's Ack is returned by the next Receive,
    -- as if the delivery it waits for had failed; after a success it finds nothing to read.
    pub ack-Received :
        (b : Broker W) (token : String)
        → let o = ack {C = Wire W} (env, (b, idle sub)) token in
          (o.1 ≡ none)
          × (receive ctx o.0 ≡ (
            (env, ((Messages.ack b token).0, idle sub)),
            acknowledged ctx env.append_text (Messages.ack b token).1,
          ))
    unfolding ack send_request handle_request handle_type request_type loopback
    ack-Received b token = (refl, receive-live _ ∙ acked-Read (Messages.ack b token))

    -- On such a connection Unsubscribe of a Consumer ends the subscription, and the session of a
    -- goroutine that runs is unsubscribed; the next Receive reads the server's answer to it, and
    -- returns a message without an ID, a payload or a token, and no error.
    pub unsubscribe-Received :
        (b : Broker W)
        → receive ctx (unsubscribe {C = Wire W} (env, (b, idle sub))).0 ≡ (
          (env, (stop_subscription b sub, idle none)),
          inr (record { id = ""; payload = ""; ack_token = "" }),
        )
    unfolding unsubscribe send_request handle_request handle_type request_type handle_unsubscribe
        respond encode conclude loopback
    unsubscribe-Received b =
        receive-live _
        ∙ ap
            (λ (w : Bool).
              conclude ctx (λ resp. inr (received_message resp))
                (loopback.decode
                  (env, respond w (stop_subscription b sub) (idle none) success_response)))
            written
