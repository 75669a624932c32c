-- ===== src/Storage.antt =====
-- internal/storage/wal.go: the write-ahead log. This file has the interface that the engine uses and
-- the replay of a log's records; `FileWal` has the file behind it.
pub mod Pending
pub mod Durable
pub mod Topology
pub mod Frame
pub mod Keys
pub mod FileWal
use dsend.Base.{
  ℕ, String, Bool, true, false, Option, none, some, List, [], ◌∷◌, ◌++◌, ◌&&◌, ◌≡◌, Map, lookup,
  insert, delete, delete_func, str_eq, if◌then◌else◌,
}
use dsend.Model.{
  Message, Binding, Record, RecordType, queue_created, published, requeued, acknowledged,
  dead_lettered, queue_deleted, queue_binded, queue_unbinded, exchange_created, exchange_deleted,
  untyped, other, default_queue_name,
}

-- ExchangeState
pub record ExchangeState : Type 0 where
  pub exchange_type : String
  pub bindings : List Binding

-- RecoveredState. A key that is missing reads as nil, which is the empty list.
pub record RecoveredState : Type 0 where
  pub pending_messages : Map (List Message)
  pub pending_exchanges : Map ExchangeState

-- removeMessage
unfoldable pub remove_message : List Message → String → List Message
unfolding delete_func
remove_message messages message_id = delete_func (λ message. str_eq message.id message_id) messages

-- state.PendingMessages[queue]
unfoldable pub pending_of : RecoveredState → String → List Message
pending_of state queue = elim (lookup queue state.pending_messages) [ none ↦ [] | some ms ↦ ms ]

put_pending : RecoveredState → String → List Message → RecoveredState
put_pending state queue messages = record state {
  pending_messages = insert queue messages state.pending_messages;
}

put_exchange : RecoveredState → String → ExchangeState → RecoveredState
put_exchange state exchange x = record state {
  pending_exchanges = insert exchange x state.pending_exchanges;
}

-- the bindings that a QueueUnbinded record deletes
unfoldable pub is_unbound : Record → Binding → Bool
is_unbound r b =
    if str_eq r.binding_key ""
    then str_eq b.queue_name r.queue
    else str_eq b.binding_key r.binding_key && str_eq b.queue_name r.queue

create_pending : RecoveredState → Record → RecoveredState
unfolding put_pending
create_pending state r = elim (lookup r.queue state.pending_messages) [
  | none ↦ put_pending state r.queue []
  | some _ ↦ state
]

bind_pending : RecoveredState → Record → RecoveredState
unfolding put_exchange
bind_pending state r = elim (lookup r.exchange state.pending_exchanges) [
  | none ↦ state
  | some x ↦ put_exchange state r.exchange (record x {
    bindings = x.bindings ++ record { queue_name = r.queue; binding_key = r.binding_key } ∷ [];
  })
]

unbind_pending : RecoveredState → Record → RecoveredState
unfolding put_exchange
unbind_pending state r = elim (lookup r.exchange state.pending_exchanges) [
  | none ↦ state
  | some x ↦
      put_exchange state r.exchange (record x { bindings = delete_func (is_unbound r) x.bindings })
]

-- The body of the loop of Load, for a record that has a type.
unfoldable pub apply_type : RecordType → RecoveredState → Record → RecoveredState
unfolding create_pending put_pending put_exchange bind_pending unbind_pending
apply_type queue_created state r = create_pending state r
apply_type published state r =
    put_pending state r.queue (pending_of state r.queue ++ r.message ∷ [])
apply_type requeued state r =
    put_pending state r.queue
      (remove_message (pending_of state r.queue) r.message_id ++ r.message ∷ [])
apply_type acknowledged state r =
    put_pending state r.queue (remove_message (pending_of state r.queue) r.message_id)
apply_type dead_lettered state r =
    put_pending state r.queue (remove_message (pending_of state r.queue) r.message_id)
apply_type queue_deleted state r = record state {
  pending_messages = delete r.queue state.pending_messages;
}
apply_type queue_binded state r = bind_pending state r
apply_type queue_unbinded state r = unbind_pending state r
apply_type exchange_created state r =
    put_exchange state r.exchange (record { exchange_type = r.exchange_type; bindings = [] })
apply_type exchange_deleted state r = record state {
  pending_exchanges = delete r.exchange state.pending_exchanges;
}
apply_type untyped state r = state
apply_type (other _) state r = state

unfoldable pub apply_record : RecoveredState → Record → RecoveredState
unfolding apply_type
apply_record state r = apply_type r.type state r

-- A message that was logged without a record around it goes to the default queue.
unfoldable pub apply_legacy : RecoveredState → Message → RecoveredState
unfolding put_pending
apply_legacy state message =
    put_pending state default_queue_name (pending_of state default_queue_name ++ message ∷ [])

abbrev pub empty_state : RecoveredState
empty_state = record { pending_messages = []; pending_exchanges = [] }

-- What Load makes of a log of typed records, oldest first.
unfoldable pub replay_from : RecoveredState → List Record → RecoveredState
replay_from state [] = state
replay_from state (r ∷ rs) = replay_from (apply_record state r) rs

unfoldable pub replay : List Record → RecoveredState
unfolding replay_from
replay rs = replay_from empty_state rs

-- The messages that a restart would put back into a queue.
unfoldable pub pending : List Record → String → List Message
pending rs queue = pending_of (replay rs) queue

-- The interface WAL, as the engine sees it: `Append` returns the new log, and whether it failed.
pub record Wal (W : Type 0) : Type 0 where
  pub append : W → Record → W × Bool

-- What the engine relies on: a successful `Append` adds its record to the end of the log, and a
-- failed one leaves the log as it was.
pub record IsWal {W : Type 0} (wal : Wal W) : Type 0 where
  pub log : W → List Record
  pub append_ok :
      (w : W) (r : Record) → (wal.append w r).1 ≡ true → log (wal.append w r).0 ≡ log w ++ r ∷ []
  pub append_failed :
      (w : W) (r : Record) → (wal.append w r).1 ≡ false → log (wal.append w r).0 ≡ log w
