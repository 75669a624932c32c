-- ===== src/Engine/QueueRuntime.antt =====
-- internal/engine/queue_runtime.go. Each method holds the runtime's lock from its first line to its
-- last, so it is one step on the state. A clock reading, a fresh UUID and the order of a `range`
-- over a map are arguments. `condProd.Signal` wakes a waiting producer, which then tests again what
-- `publish` tests; it changes no state.
pub mod Produce
pub mod Deliver
pub mod Redelivery
pub mod Cases
pub mod Invariant
pub mod Balance
pub mod Tracks
pub mod Redelivers
pub mod Durable
pub mod Turns
pub mod Sound
pub mod Steps
pub mod Frame
pub mod Appends
pub mod Overflow
pub mod Expiry
pub mod Owners
pub mod Resubscribed
pub mod Recovery
use dsend.Base.{
  ℕ, zero, suc, ◌+◌, ◌%◌, max, ℤ, pos, pos_part, ◌+ℤ◌, ◌-ℤ◌, ltb_ℤ, leb_ℤ, eq_ℤ, String, Bool, true,
  false, not, ◌&&◌, ◌||◌, Option, none, some, List, [], ◌∷◌, ◌++◌, length, get_or, delete_func, Map,
  lookup, insert, delete, values, str_eq, ltb, leb, nat_eq, map, if◌then◌else◌,
}
use dsend.Model.{
  Message, InFlightMessage, Delivery, Metric, Record, zero_record, published, acknowledged,
  requeued, dead_lettered,
}
use dsend.Queue.RingBuffer as Ring
use dsend.Queue.RingBuffer.{RingBuffer}
use dsend.Queue.Dlq
use dsend.Queue.Dlq.{Dlq}
use dsend.Inflight
use dsend.Inflight.{Manager}
use dsend.Session.{ConsumerSession, is_eligible, close}
use dsend.Storage.{Wal}
use dsend.Engine.{
  Config, Error, err_broker_closed, err_invalid_ack_token, err_wal_append, Shared, TokenHook,
}

-- QueueRuntime. `notify_distributor` says whether the channel of capacity one holds its token.
-- `detached` keeps the sessions that the runtime has closed and taken out of its map: other holders
-- of the pointer still see them.
pub record QueueRuntime : Type 0 where
  pub name : String
  pub config : Config
  pub closed : Bool
  pub queue : RingBuffer
  pub in_flight_manager : Manager
  pub dead_letter_queue : Dlq
  pub consumer_sessions : Map ConsumerSession
  pub detached : List ConsumerSession
  pub consumer_order : List String
  pub next_consumer : ℕ
  pub notify_distributor : Bool
  pub register_token : TokenHook
  pub remove_token : TokenHook
  pub acked_count : ℕ
  pub produced_count : ℕ
  pub redelivered_count : ℕ
  pub deadlettered_count : ℕ

-- What a method that may fail returns: the new state, and its error.
abbrev pub Outcome : Type 0 → Type 0
Outcome W = QueueRuntime × Shared W × Option Error

push_recovered : QueueRuntime → List Message → QueueRuntime
push_recovered q [] = q
push_recovered q (msg ∷ messages) =
    push_recovered
      (record q { queue = Ring.push q.queue msg; produced_count = q.produced_count + 1 }) messages

-- the value that NewQueueRuntime starts from
bare_runtime : String → Config → RingBuffer → Dlq → Manager → QueueRuntime
bare_runtime name cfg q dlq manager = record {
  name = name;
  config = cfg;
  closed = false;
  queue = q;
  in_flight_manager = manager;
  dead_letter_queue = dlq;
  consumer_sessions = [];
  detached = [];
  consumer_order = [];
  next_consumer = 0;
  notify_distributor = false;
  register_token = none;
  remove_token = none;
  acked_count = 0;
  produced_count = 0;
  redelivered_count = 0;
  deadlettered_count = 0;
}

-- NewQueueRuntime
unfoldable pub new_queue_runtime :
    String → Config → List Message → RingBuffer → Dlq → Manager → QueueRuntime
unfolding push_recovered bare_runtime
new_queue_runtime name cfg messages q dlq manager =
    record (push_recovered (bare_runtime name cfg q dlq manager) messages) {
      notify_distributor = true;
    }

-- SetTokenHooks
unfoldable pub set_token_hooks :
    QueueRuntime
    → (String → Map String → Map String)
    → (String → Map String → Map String)
    → QueueRuntime
set_token_hooks q register remove = record q {
  register_token = some register;
  remove_token = some remove;
}

-- a call of a hook, if it is set
abbrev pub call_hook : {W : Type 0} → TokenHook → String → Shared W → Shared W
call_hook none token s = s
call_hook (some hook) token s = record s { token_owners = hook token s.token_owners }

-- `sess.UnackedCount--` for the session under an ID, if there is one
abbrev pub release_slot : String → Map ConsumerSession → Map ConsumerSession
release_slot id sessions = elim (lookup id sessions) [
  | none ↦ sessions
  | some sess ↦ insert id (record sess { unacked_count = sess.unacked_count -ℤ pos 1 }) sessions
]

-- the record that Publish, Ack and the workers write
abbrev pub message_record : QueueRuntime → Message → Record
message_record q message = record zero_record {
  queue = q.name;
  message = message;
  message_id = message.id;
}

unfoldable pub is_expired : Message → ℕ → Bool
is_expired message now = elim message.expiry_at [ none ↦ false | some at ↦ leb at now ]

-- What Publish makes of the message that it is given: an ID if it has none, the time, and the time
-- of expiry if `ttl` is positive.
unfoldable pub stamp : Message → ℤ → String → ℕ → Message
stamp message ttl fresh_id now = record message {
  id = if str_eq message.id "" then fresh_id else message.id;
  timestamp = now;
  expiry_at = if ltb_ℤ (pos 0) ttl then some (now + pos_part ttl) else message.expiry_at;
}

-- Metrics
pub metrics : QueueRuntime → Metric
metrics q = record {
  produced_count = q.produced_count;
  acked_count = q.acked_count;
  dlq_count = q.deadlettered_count;
  inflight_count = Inflight.size q.in_flight_manager;
  redelivered_count = q.redelivered_count;
  consumer_session_count = length q.consumer_sessions;
  queue_depth = Ring.size q.queue;
}

-- Subscribe
unfoldable pub subscribe : QueueRuntime → ConsumerSession → QueueRuntime × Option Error
subscribe q session =
    if q.closed then (q, some err_broker_closed) else elim (lookup session.id q.consumer_sessions) [
      | some _ ↦ (q, none)
      | none ↦ (
        record q {
          consumer_sessions = insert session.id session q.consumer_sessions;
          consumer_order = q.consumer_order ++ session.id ∷ [];
          notify_distributor = true;
        },
        none,
      )
    ]

-- Unsubscribe
unfoldable pub unsubscribe : QueueRuntime → String → QueueRuntime
unfolding close
unsubscribe q id = elim (lookup id q.consumer_sessions) [
  | none ↦ q
  | some sess ↦
      let order = delete_func (λ session_id. str_eq session_id id) q.consumer_order in
      record q {
        consumer_sessions = delete id q.consumer_sessions;
        consumer_order = order;
        next_consumer = if nat_eq (length order) 0 then 0 else q.next_consumer % length order;
        detached = close sess ∷ q.detached;
      }
]

-- Closing every session and forgetting them, as Shutdown and CloseIfEmpty do.
unfoldable pub drop_sessions : QueueRuntime → QueueRuntime
unfolding close
drop_sessions q = record q {
  closed = true;
  detached = map close (values q.consumer_sessions) ++ q.detached;
  consumer_sessions = [];
  consumer_order = [];
  next_consumer = 0;
}

-- Shutdown
unfoldable pub shutdown : QueueRuntime → QueueRuntime
unfolding drop_sessions
shutdown q = drop_sessions q

-- CloseIfEmpty
unfoldable pub close_if_empty : QueueRuntime → QueueRuntime × Bool
unfolding drop_sessions
close_if_empty q =
    if not (eq_ℤ (Ring.size q.queue) (pos 0)) || not (nat_eq (Inflight.size q.in_flight_manager) 0)
    then (q, false)
    else (drop_sessions q, true)

-- The loop of nextSession, over at most `rounds` turns: the order has a session that is eligible, or
-- the loop ends where it began. A missing session panics in Go, and is not eligible here.
unfoldable pub eligible_at : QueueRuntime → ℕ → Bool
unfolding is_eligible
eligible_at q i = elim (lookup (get_or q.consumer_order i "") q.consumer_sessions) [
  | none ↦ false
  | some sess ↦ is_eligible sess q.config.consumer_prefetch
]

unfoldable pub scan_sessions : ℕ → QueueRuntime → ℕ → ℕ → Option String × ℕ
unfolding eligible_at
scan_sessions zero q start i = (none, i)
scan_sessions (suc rounds) q start i =
    let i' = (i + 1) % length q.consumer_order in
    let rest = scan_sessions rounds q start i' in
    if eligible_at q i
    then (some (get_or q.consumer_order i ""), i')
    else if nat_eq i' start
    then (none, i')
    else rest

-- nextSession
unfoldable pub next_session : QueueRuntime → QueueRuntime × Option ConsumerSession
unfolding scan_sessions
next_session q =
    let len = length q.consumer_order in
    let start = if leb len q.next_consumer then 0 else q.next_consumer in
    let (found, next) = scan_sessions len q start start in
    if nat_eq len 0 then (q, none) else (
      record q { next_consumer = next },
      elim found [ none ↦ none | some id ↦ lookup id q.consumer_sessions ],
    )
