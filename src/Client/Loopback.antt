-- ===== src/Client/Loopback.antt =====
-- A client and the server at the other end of its connection, without a network between them: a request
-- that is written is handled at once if the handler is at its loop, and the responses that it has sent
-- wait until the client reads them. That a request and a response arrive as they were sent is what
-- encoding/json and a TCP connection provide.
use dsend.Base.{ℕ, String, true, Option, none, some, List, [], ◌∷◌}
use dsend.Engine.Broker.{Broker}
use dsend.Storage.{Wal}
use dsend.Protocol.{Request, Response}
use dsend.Server.{
  Subscription, Stage, reading, publishing, returned, Connection, Surroundings, Served,
}
use dsend.Server.Handler.{handle_request, handle_resumed}
use dsend.Client.{Link}

-- What the next round of the handler meets, the broker, and the connection: `sent` has the responses
-- that the client has not read.
abbrev pub Wire : Type 0 → Type 0
Wire W = Surroundings × Served W

-- A time when the handler is woken, with what the others have made of the broker, and the IDs and the
-- readings of the clock that come next.
pub record Waking (W : Type 0) : Type 0 where
  pub broker : Broker W
  pub fresh : ℕ → String
  pub clock : ℕ → ℕ

-- A connection whose handler waits for a request, with nothing to read.
abbrev pub idle : Option Subscription → Connection
idle sub = record { sent = []; subscription = sub; stage = reading }

module _ {W : Type 0} where
  abbrev pub write : ⦃wal : Wal W⦄ → Wire W → Request → Stage → Wire W
  write (env, s) req reading = (env, handle_request env s req)
  write wire req (publishing _ _) = wire
  write wire req returned = wire

  abbrev pub read : Wire W → Wire W × Option Response
  read (env, (b, c)) = elim c.sent [
    | [] ↦ ((env, (b, c)), none)
    | resp ∷ rest ↦ ((env, (b, record c { sent = rest })), some resp)
  ]

  -- The handler when it is woken: a Publish that waits tests again whether there is room.
  abbrev pub wake : ⦃wal : Wal W⦄ → Surroundings → Waking W → Connection → Stage → Wire W
  wake env w c reading = (env, (w.broker, c))
  wake env w c (publishing req names) = (
    env,
    handle_resumed (record env { fresh = w.fresh; clock = w.clock }) (w.broker, c) req names,
  )
  wake env w c returned = (env, (w.broker, c))

  -- Decode with a deadline: it waits for a response, while the others that share the broker change it
  -- and wake the handler. Nothing is read if there is no response by the deadline.
  unfoldable pub await_response :
      ⦃wal : Wal W⦄ → List (Waking W) → Wire W → Wire W × Option Response
  await_response [] wire = read wire
  await_response (w ∷ wakes) (env, (b, c)) =
      let later = await_response wakes (wake env w c c.stage) in
      elim c.sent [ [] ↦ later | resp ∷ rest ↦ ((env, (b, record c { sent = rest })), some resp) ]

  -- The link whose handler is woken so many times before the deadline.
  unfoldable pub awaiting : ⦃wal : Wal W⦄ → List (Waking W) → Link (Wire W)
  awaiting wakes = record {
    encode = λ wire req. (write wire req wire.1.1.stage, true);
    decode = await_response wakes;
  }

  -- The link on which nobody else is at work while the client waits.
  instance unfoldable pub loopback : ⦃wal : Wal W⦄ → Link (Wire W)
  loopback = record { encode = λ wire req. (write wire req wire.1.1.stage, true); decode = read }
