-- ===== src/Server.antt =====
-- internal/server: the state of one connection and what handleConnection does with what it reads. The
-- children have the requests (Handler), the goroutine of a subscription (Deliveries), the steps of a
-- connection, and the connections of the listener (Conns).
pub mod Handler
pub mod Deliveries
pub mod Reached
pub mod Steps
pub mod Answers
pub mod Conns
pub mod Left
pub mod Taken
use dsend.Base.{
  ℕ, ℤ, pos, String, Bool, true, false, Option, none, some, List, [], ◌∷◌, ◌++◌, inl, inr,
  if◌then◌else◌,
}
use dsend.Protocol.{Request, Response, zero_response, current_version}
use dsend.Engine.{
  Error, err_queue_exists, err_queue_not_empty, err_queue_not_found, err_invalid_queue,
  err_broker_closed, err_invalid_ack_token, err_exchange_not_found, err_invalid_exchange,
  err_invalid_exchange_type, err_default_exchange, err_exchange_exists, err_exchange_not_empty,
  err_no_route, err_invalid_binding_key, err_binding_not_exist, err_binding_already_exist,
  err_wal_append,
}
use dsend.Engine.Broker.{Broker, Outcome}
use dsend.Engine.Broker.Messages.{unsubscribe}

-- The goroutine of a subscription, with its arguments: the queue's name, the session's ID, and
-- the pointer to the session. `running` says that it has not returned.
pub record Subscription : Type 0 where
  pub queue_name : String
  pub session_id : String
  pub address : ℕ
  pub running : Bool

-- the subscription of a goroutine that runs
abbrev pub forwarder : String → String → ℕ → Subscription
forwarder name id address = record {
  queue_name = name;
  session_id = id;
  address = address;
  running = true;
}

-- Where the handler of a connection is: about to read a request, in the broker's Publish, which
-- waits for room with these queues still to come, or at its end.
pub data Stage : Type 0 where
  reading : Stage
  publishing : Request → List String → Stage
  returned : Stage

-- What handleConnection keeps. `sent` has the responses that were encoded without an error, the
-- oldest first; `subscription` is `none` while `stopSubscribe` is nil.
pub record Connection : Type 0 where
  pub sent : List Response
  pub subscription : Option Subscription
  pub stage : Stage

-- a connection that has just been accepted
abbrev pub new_connection : Connection
new_connection = record { sent = []; subscription = none; stage = reading }

-- What one round meets outside of the program: the IDs and the clock of Publish, the order of a range
-- over a map, the pointer to a new session, whether the write to the connection succeeds, and the text
-- of the error of a failed Append.
pub record Surroundings : Type 0 where
  pub fresh : ℕ → String
  pub clock : ℕ → ℕ
  pub order : List String → List String
  pub address : ℕ
  pub written : Bool
  pub append_text : String

-- The texts of the broker's errors.
abbrev pub error_text : String → Error → String
error_text append_text err_queue_exists = "queue already exists"
error_text append_text err_queue_not_empty = "queue is not empty"
error_text append_text err_queue_not_found = "queue does not exist"
error_text append_text err_invalid_queue = "queue name is invalid"
error_text append_text err_broker_closed = "broker closed"
error_text append_text err_invalid_ack_token = "invalid ack token"
error_text append_text err_exchange_not_found = "exchange does not exist"
error_text append_text err_invalid_exchange = "exchange is invalid"
error_text append_text err_invalid_exchange_type = "exchange type is invalid"
error_text append_text err_default_exchange = "default exchange name is reserved"
error_text append_text err_exchange_exists = "exchange already exists"
error_text append_text err_exchange_not_empty = "exchange has existing bindings"
error_text append_text err_no_route = "no route found"
error_text append_text err_invalid_binding_key = "binding key is invalid"
error_text append_text err_binding_not_exist = "binding does not exist"
error_text append_text err_binding_already_exist = "binding already exists"
error_text append_text err_wal_append = append_text

-- errorString
abbrev pub error_string : String → Option Error → String
error_string append_text none = ""
error_string append_text (some err) = error_text append_text err

-- the response `{Success: err == nil, Error: errorString(err)}`
abbrev pub outcome_response : String → Option Error → Response
outcome_response append_text none = record zero_response { success = true }
outcome_response append_text (some err) = record zero_response {
  error = error_text append_text err;
}

-- the response `{Success: false, Error: text}`
abbrev pub failure_response : String → Response
failure_response text = record zero_response { error = text }

abbrev pub success_response : Response
success_response = record zero_response { success = true }

-- encode: the flag is false if the deadline could not be set or the write failed.
unfoldable pub encode : Bool → Connection → Response → Connection × Bool
encode true c resp =
    (record c { sent = c.sent ++ record resp { version = current_version } ∷ [] }, true)
encode false c resp = (c, false)

-- The broker, and one connection to it.
abbrev pub Served : Type 0 → Type 0
Served W = Broker W × Connection

module _ {W : Type 0} where
  -- `close(stopSubscribe)` and `subwg.Wait()`: the goroutine, if it has not returned, calls Unsubscribe
  -- and returns.
  unfoldable pub stop_subscription : Broker W → Option Subscription → Broker W
  stop_subscription b none = b
  stop_subscription b (some sub) =
      if sub.running then unsubscribe b sub.queue_name sub.session_id else b

  -- A return from the handler, with its deferred function.
  unfoldable pub leave : Served W → Served W
  leave (b, c) =
      (stop_subscription b c.subscription, record c { subscription = none; stage = returned })

  -- `if err := encode(...); err != nil { return }` and the next round
  unfoldable pub respond : Bool → Broker W → Connection → Response → Served W
  respond written b c resp =
      let (c', ok) = encode written c resp in
      if ok then (b, record c' { stage = reading }) else leave (b, c')

  -- the answer to a call that returns an error or nil
  unfoldable pub answer : Surroundings → Connection → Outcome W → Served W
  answer env c (b, err) = respond env.written b c (outcome_response env.append_text err)
