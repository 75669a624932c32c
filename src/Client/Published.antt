-- ===== src/Client/Published.antt =====
-- Publish of a Producer, which may find no room in a queue: on a server that answers, while others use
-- the broker.
use dsend.Base.{
  ℤ, String, Bool, true, false, Option, none, some, List, [], ◌∷◌, ◌≡◌, refl, ap, ◌∙◌, inl, inr,
  if◌then◌else◌,
}
use dsend.Model.{Message, zero_message}
use dsend.Storage.{Wal}
use dsend.Protocol.{Request, Response, current_version}
use dsend.Engine.{Error}
use dsend.Engine.Broker.{Broker}
use dsend.Engine.Broker.Messages as Messages
use dsend.Engine.Broker.Messages.{Publishing, finished, waiting}
use dsend.Server.{reading, publishing, Stage, Subscription, Surroundings, encode, respond, answer}
use dsend.Server.Handler.{
  handle_published, handle_type, handle_request, handle_resumed, request_type,
}
use dsend.Client.{
  Link, cancelled, failed_link, reported, Result, Context, do_request, conclude, call,
}
use dsend.Client.Producer.{no_result, typed, publish}
use dsend.Client.Loopback.{Wire, Waking, idle, loopback, await_response, awaiting}
use dsend.Client.Remote.{concluded, call-live}

-- The broker's Publish of a message that has only the payload.
abbrev pub published :
    {W : Type 0}
    → ⦃wal : Wal W⦄ → Surroundings
    → Broker W
    → String
    → String
    → String
    → ℤ
    → Broker W × Publishing
published env b exchange_name routing_key payload ttl =
    Messages.publish b exchange_name routing_key (record zero_message { payload = payload }) ttl
      env.fresh env.clock

-- The broker's Publish until a deadline: while it waits for room, it goes on each time that it is woken,
-- with the broker as the others have left it.
unfoldable pub await_room :
    {W : Type 0}
    → ⦃wal : Wal W⦄ → Surroundings
    → List (Waking W)
    → Message
    → ℤ
    → Broker W × Publishing
    → Broker W × Publishing
await_room env [] message ttl o = o
await_room env (w ∷ wakes) message ttl (b, finished err) = (b, finished err)
await_room env (w ∷ wakes) message ttl (b, waiting names) =
    await_room env wakes message ttl
      (Messages.publish_all names w.broker message ttl w.fresh w.clock 0)

-- What Publish of Producer returns for what the broker's Publish did.
abbrev pub publish_concluded :
    {W : Type 0}
    → Context
    → Surroundings
    → Option Subscription
    → Request
    → Broker W × Publishing
    → Wire W × Result Unit
publish_concluded ctx env sub req (b, finished err) = concluded env sub (b, err)
publish_concluded ctx env sub req (b, waiting names) = (
  (env, (b, record (idle sub) { stage = publishing req names })),
  if ctx.after then inl cancelled else inl failed_link,
)

-- The request of Publish of Producer.
abbrev pub publish_request_of : String → String → String → ℤ → Request
publish_request_of exchange_name routing_key payload ttl = record (typed "publish") {
  exchange = exchange_name;
  routing_key = routing_key;
  payload = record zero_message { payload = payload };
  ttl = ttl;
}

module _ {W : Type 0} ⦃wal : Wal W⦄ (ctx : Context) (env : Surroundings) (sub : Option Subscription)
    (live : ctx.before ≡ false) (written : env.written ≡ true) where
  module _ (link : Link (Wire W)) where
    -- A response that is there is read before anybody else is at work.
    reply-Awaited :
        (wakes : List (Waking W)) (stage : Stage) (b : Broker W) (resp : Response)
        → conclude ⦃link = link⦄ ctx no_result (
            await_response wakes
              (env, respond env.written b (record (idle sub) { stage = stage }) resp))
          ≡ ((env, (b, idle sub)), if resp.success then inr tt else inl (reported resp.error))
    unfolding await_response respond encode conclude
    reply-Awaited [] stage b resp =
        ap
          (λ (done : Bool).
            conclude ⦃link = link⦄ ctx no_result
              (await_response [] (env, respond done b (record (idle sub) { stage = stage }) resp)))
          written
    reply-Awaited (w ∷ wakes) stage b resp =
        ap
          (λ (done : Bool). conclude ⦃link = link⦄ ctx no_result (
            await_response (w ∷ wakes)
              (env, respond done b (record (idle sub) { stage = stage }) resp)))
          written

    finished-Awaited :
        (wakes : List (Waking W)) (stage : Stage) (b : Broker W) (err : Option Error)
        → conclude ⦃link = link⦄ ctx no_result
            (await_response wakes (env, answer env (record (idle sub) { stage = stage }) (b, err)))
          ≡ concluded env sub (b, err)
    unfolding answer
    finished-Awaited wakes stage b none = reply-Awaited wakes stage b _
    finished-Awaited wakes stage b (some err) = reply-Awaited wakes stage b _

    published-Awaited :
        (wakes : List (Waking W)) (stage : Stage) (req : Request) (o : Broker W × Publishing)
        → conclude ⦃link = link⦄ ctx no_result (
            await_response wakes
              (env, handle_published env (record (idle sub) { stage = stage }) req o))
          ≡ publish_concluded ctx env sub req (await_room env wakes req.payload req.ttl o)
    unfolding handle_published conclude await_response await_room handle_resumed answer
    published-Awaited [] stage req (b, finished err) = finished-Awaited [] stage b err
    published-Awaited [] stage req (b, waiting names) = refl
    published-Awaited (w ∷ wakes) stage req (b, finished err) =
        finished-Awaited (w ∷ wakes) stage b err
    published-Awaited (w ∷ wakes) stage req (b, waiting names) =
        published-Awaited wakes (publishing req names) req
          (Messages.publish_all names w.broker req.payload req.ttl w.fresh w.clock 0)

  -- Publish of Producer, on a connection whose handler waits for a request, over which the response can be
  -- written and nothing else is sent meanwhile, with a live context. The broker's Publish of the payload,
  -- without an ID, may wait for room; each time that it is woken before the deadline of Decode it goes on
  -- with what the others have made of the broker. If it has returned by the deadline, then the method
  -- returns nil or the text of its error; if it still waits, then the method fails although the handler
  -- still holds the request and the queues that are to come.
  pub publish-Remote :
      (wakes : List (Waking W)) (b : Broker W) (exchange_name routing_key payload : String)
      (ttl : ℤ)
      → let message = record zero_message { payload = payload } in
        publish ⦃link = awaiting wakes⦄ ctx
          (env, (b, idle sub))
          exchange_name
          routing_key
          payload
          ttl
        ≡ publish_concluded ctx env sub
            (record (publish_request_of exchange_name routing_key payload ttl) {
              version = current_version;
            })
            (await_room env wakes message ttl
              (published env b exchange_name routing_key payload ttl))
  unfolding publish do_request awaiting call handle_request handle_type request_type
  publish-Remote wakes b exchange_name routing_key payload ttl =
      call-live ⦃link = awaiting wakes⦄ ctx live _
        (publish_request_of exchange_name routing_key payload ttl) no_result
      ∙ published-Awaited (awaiting wakes) wakes reading _
          (published env b exchange_name routing_key payload ttl)
