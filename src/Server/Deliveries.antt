-- ===== src/Server/Deliveries.antt =====
-- internal/server/handler.go: the goroutine that a subscription starts, which forwards the deliveries of
-- the session to the client.
use dsend.Base.{Bool, true, false, Option, none, some, lookup, if◌then◌else◌}
use dsend.Model.{Delivery}
use dsend.Protocol.{Response, zero_response}
use dsend.Engine.QueueRuntime.Deliver.{take_delivery}
use dsend.Engine.Broker.{Broker, put_queue}
use dsend.Engine.Broker.Messages.{queue_key, unsubscribe}
use dsend.Server.{Subscription, Connection, Served, encode}

-- the response that carries a delivery
abbrev pub delivery_response : Delivery → Response
delivery_response delivery = record zero_response {
  success = true;
  message = delivery.message;
  ack_token = delivery.ack_token;
}

module _ {W : Type 0} where
  -- `<-currentSess.Deliveries`, while the runtime of the queue has the session: what is received, if
  -- the channel is ready. The goroutine has the session's pointer, and does not ask the broker.
  unfoldable pub receive : Broker W → Subscription → Broker W × Option Delivery
  receive b sub = elim (lookup (queue_key sub.queue_name) b.queues) [
    | none ↦ (b, none)
    | some runtime ↦
        let (runtime', delivery) = take_delivery runtime sub.session_id sub.address in
        (put_queue b (queue_key sub.queue_name) runtime', delivery)
  ]

  -- The goroutine with a delivery that it received: it goes on, or calls Unsubscribe and returns.
  unfoldable pub forward_delivery :
      Bool → Broker W → Connection → Subscription → Option Delivery → Served W
  forward_delivery written b c sub none = (b, c)
  forward_delivery written b c sub (some delivery) =
      let (c', ok) = encode written c (delivery_response delivery) in
      if ok then (b, c') else (
        unsubscribe b sub.queue_name sub.session_id,
        record c' { subscription = some (record sub { running = false }) },
      )

  -- A round of the goroutine; it does nothing if there is none.
  unfoldable pub forward : Bool → Served W → Served W
  forward written (b, c) = elim c.subscription [
    | none ↦ (b, c)
    | some sub ↦
        let (b', delivery) = receive b sub in
        if sub.running then forward_delivery written b' c sub delivery else (b, c)
  ]
