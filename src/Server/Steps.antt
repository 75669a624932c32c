-- ===== src/Server/Steps.antt =====
-- A connection as a state machine: the rounds of its handler, those of its goroutine, and whatever else
-- happens to the broker, in any interleaving.
use dsend.Base.{String, Bool, ◌≡◌, ◌≢◌, List}
use dsend.Storage.{Wal, IsWal}
use dsend.Protocol.{Request}
use dsend.Engine.Broker.{Broker}
use dsend.Engine.Broker.Sound.{Sound}
use dsend.Engine.Broker.Steps as BrokerSteps
use dsend.Engine.Broker.Publishing.{rounds}
use dsend.Server.{reading, publishing, Connection, Surroundings, Served, leave}
use dsend.Server.Handler.{handle_request, handle_resumed}
use dsend.Server.Deliveries.{forward}
use dsend.Server.Reached.{
  Regular, leave-Reach, handle_request-Reach, handle_published-Reach, forward-Reach,
}
use dsend.Server.Answers.{
  IsOrderly, leave-IsOrderly, handle_request-IsOrderly, handle_published-IsOrderly,
  forward-IsOrderly,
}

module _ {W : Type 0} ⦃wal : Wal W⦄ (laws : IsWal wal) where
  -- One step of a connection, or of the others that share the broker.
  pub data Step : Served W → Served W → Type 0 where
    handles :
        (b : Broker W) (c : Connection) (env : Surroundings) (req : Request)
        → c.stage ≡ reading
        → env.append_text ≢ ""
        → Regular laws env b req
        → Step (b, c) (handle_request env (b, c) req)
    resumes :
        (b : Broker W) (c : Connection) (env : Surroundings) (req : Request) (names : List String)
        → c.stage ≡ publishing req names
        → env.append_text ≢ ""
        → Regular laws env b req
        → Step (b, c) (handle_resumed env (b, c) req names)
    leaves : (b : Broker W) (c : Connection) → c.stage ≡ reading → Step (b, c) (leave (b, c))
    forwards :
        (b : Broker W) (c : Connection) (written : Bool) → Step (b, c) (forward written (b, c))
    others : (b b' : Broker W) (c : Connection) → BrokerSteps.Reach b b' → Step (b, c) (b', c)

  pub data Reach (s : Served W) : Served W → Type 0 where
    here : Reach s s
    next : {u v : Served W} → Reach s u → Step u v → Reach s v

  handle_resumed-Reach :
      (env : Surroundings) (b : Broker W) (c : Connection) (req : Request) (names : List String)
      → Sound laws b
      → Regular laws env b req
      → BrokerSteps.Reach b (handle_resumed env (b, c) req names).0
  unfolding handle_resumed
  handle_resumed-Reach env b c req names t regular =
      handle_published-Reach env c req _
        (rounds laws req.payload req.ttl env.fresh env.clock regular.unnamed regular.distinct names
          b 0 t regular.unused).reached

  Step-Reach : {s u : Served W} → Step s u → Sound laws s.0 → BrokerSteps.Reach s.0 u.0
  Step-Reach (handles b c env req at_work texts regular) t =
      handle_request-Reach laws env b c req t regular
  Step-Reach (resumes b c env req names at_work texts regular) t =
      handle_resumed-Reach env b c req names t regular
  Step-Reach (leaves b c at_work) t = leave-Reach b c
  Step-Reach (forwards b c written) t = forward-Reach written b c
  Step-Reach (others b b' c r) t = r

  Step-IsOrderly : {s u : Served W} → Step s u → IsOrderly s.1 → IsOrderly u.1
  unfolding handle_resumed
  Step-IsOrderly (handles b c env req at_work texts regular) h =
      handle_request-IsOrderly env texts c h.responses at_work b req
  Step-IsOrderly (resumes b c env req names at_work texts regular) h =
      handle_published-IsOrderly env texts c req _ h.responses
  Step-IsOrderly (leaves b c at_work) h = leave-IsOrderly b c h
  Step-IsOrderly (forwards b c written) h = forward-IsOrderly written b c h
  Step-IsOrderly (others b b' c r) h = h

  -- From a sound broker, every sequence of steps of a connection and of whatever else uses the broker,
  -- in any interleaving, leads to a sound broker, if the messages that clients publish come without an ID
  -- and the IDs and tokens that are drawn are not in use, if the log refuses no record of DeleteQueue,
  -- BindQueue and UnbindQueue, if cancelReservation is called only while its queue has room and the
  -- delivery is still in flight, and if the error of a failed Append has a text.
  pub serve-Sound : {s u : Served W} → Sound laws s.0 → Reach s u → Sound laws u.0
  serve-Sound t here = t
  serve-Sound t (next r st) =
      let sound = serve-Sound t r in BrokerSteps.broker-Sound laws sound (Step-Reach st sound)

  -- In the same runs, in which the error of a failed Append has a text, if it holds at the start: every
  -- response that was sent has the current version, and says that the request has succeeded exactly when
  -- it carries no error; and once the handler has returned it has no subscription.
  pub serve-IsOrderly : {s u : Served W} → IsOrderly s.1 → Reach s u → IsOrderly u.1
  serve-IsOrderly h here = h
  serve-IsOrderly h (next r st) = Step-IsOrderly st (serve-IsOrderly h r)
