-- ===== src/Storage/Topology.antt =====
-- What each record does to the names of the queues and to the exchanges of the recovered state.
use mathlib.Core.Option
use dsend.Base.{
  String, true, ◌||◌, none, some, List, [], ◌∷◌, ◌++◌, ◌≡◌, ◌≢◌, refl, ap, arith, Option-cases, inl,
  inr, ◌⊎◌, lookup, has, has-insert, lookup-insert, lookup-delete, delete_func, str_eq,
  if◌then◌else◌, eq_iff,
}
use dsend.Model.{
  Message, Record, RecordType, queue_created, published, requeued, acknowledged, dead_lettered,
  queue_deleted, queue_binded, queue_unbinded, exchange_created, exchange_deleted,
}
use dsend.Storage.{
  ExchangeState, RecoveredState, apply_record, apply_type, put_pending, bind_pending,
  unbind_pending, is_unbound,
}

-- the changes of one exchange's state
abbrev pub bound : Record → ExchangeState → ExchangeState
bound r x = record x {
  bindings = x.bindings ++ record { queue_name = r.queue; binding_key = r.binding_key } ∷ [];
}

abbrev pub unbound : Record → ExchangeState → ExchangeState
unbound r x = record x { bindings = delete_func (is_unbound r) x.bindings }

module _ (state : RecoveredState) (r : Record) where
  -- Records of messages leave the exchanges alone, and the other queues; a queue stays known.
  pub record MessagesOnly (state' : RecoveredState) : Type 0 where
    pub exchanges : state'.pending_exchanges ≡ state.pending_exchanges
    pub others :
        (n : String)
        → n ≢ r.queue
        → lookup n state'.pending_messages ≡ lookup n state.pending_messages
    pub here : has r.queue state'.pending_messages ≡ true

  -- the record's type decides the step
  step : {k : RecordType} → r.type ≡ k → apply_record state r ≡ apply_type k state r
  unfolding apply_record
  step t = ap (λ (k : RecordType). apply_type k state r) t

  put_MessagesOnly : (ms : List Message) → MessagesOnly (put_pending state r.queue ms)
  unfolding put_pending
  put_MessagesOnly ms = record {
    exchanges = refl;
    others =
        λ n ne. ground (arith, lookup-insert r.queue n ms state.pending_messages, eq_iff r.queue n);
    here =
        ground
          (arith, has-insert r.queue r.queue ms state.pending_messages, eq_iff r.queue r.queue);
  }

  pub message_record-MessagesOnly :
      (r.type ≡ published)
        ⊎ (r.type ≡ requeued)
        ⊎ (r.type ≡ acknowledged)
        ⊎ (r.type ≡ dead_lettered)
      → MessagesOnly (apply_record state r)
  unfolding apply_type
  message_record-MessagesOnly (inl t) = rw (step t) (put_MessagesOnly _)
  message_record-MessagesOnly (inr (inl t)) = rw (step t) (put_MessagesOnly _)
  message_record-MessagesOnly (inr (inr (inl t))) = rw (step t) (put_MessagesOnly _)
  message_record-MessagesOnly (inr (inr (inr t))) = rw (step t) (put_MessagesOnly _)

  module _ (t : r.type ≡ queue_created) where
    pub exchanges-created : (apply_record state r).pending_exchanges ≡ state.pending_exchanges
    unfolding apply_type
    exchanges-created = rw (step t) (ground arith)

    pub has-created :
        (n : String)
        → has n (apply_record state r).pending_messages
          ≡ (str_eq r.queue n || has n state.pending_messages)
    unfolding apply_type
    has-created n =
        rw (step t)
          (ground (arith, has-insert r.queue n [] state.pending_messages, eq_iff r.queue n))

    pub messages-created :
        (n : String)
        → n ≢ r.queue
        → lookup n (apply_record state r).pending_messages ≡ lookup n state.pending_messages
    unfolding apply_type
    messages-created n ne =
        rw (step t)
          (ground (arith, lookup-insert r.queue n [] state.pending_messages, eq_iff r.queue n))

    pub messages-created_self :
        lookup r.queue state.pending_messages ≡ none
        → lookup r.queue (apply_record state r).pending_messages ≡ some []
    unfolding apply_type
    messages-created_self e = rw (step t) (
        ground
          (arith, lookup-insert r.queue r.queue [] state.pending_messages, eq_iff r.queue r.queue))

  module _ (t : r.type ≡ queue_deleted) where
    pub exchanges-deleted : (apply_record state r).pending_exchanges ≡ state.pending_exchanges
    unfolding apply_type
    exchanges-deleted = rw (step t)

    pub messages-deleted :
        (n : String)
        → lookup n (apply_record state r).pending_messages
          ≡ (if str_eq r.queue n then none else lookup n state.pending_messages)
    unfolding apply_type
    messages-deleted n = rw (step t) (lookup-delete r.queue n state.pending_messages)

  -- The records of the exchanges leave the messages alone.
  module _ (t : r.type ≡ exchange_created) where
    pub messages-exchange_created : (apply_record state r).pending_messages ≡ state.pending_messages
    unfolding apply_type
    messages-exchange_created = rw (step t)

    pub exchanges-exchange_created :
        (x : String)
        → lookup x (apply_record state r).pending_exchanges ≡ (
            if str_eq r.exchange x
            then some (record { exchange_type = r.exchange_type; bindings = [] })
            else lookup x state.pending_exchanges)
    unfolding apply_type
    exchanges-exchange_created x =
        rw (step t) (lookup-insert r.exchange x _ state.pending_exchanges)

  module _ (t : r.type ≡ exchange_deleted) where
    pub messages-exchange_deleted : (apply_record state r).pending_messages ≡ state.pending_messages
    unfolding apply_type
    messages-exchange_deleted = rw (step t)

    pub exchanges-exchange_deleted :
        (x : String)
        → lookup x (apply_record state r).pending_exchanges
          ≡ (if str_eq r.exchange x then none else lookup x state.pending_exchanges)
    unfolding apply_type
    exchanges-exchange_deleted x = rw (step t) (lookup-delete r.exchange x state.pending_exchanges)

  module _ (t : r.type ≡ queue_binded) where
    pub messages-binded : (apply_record state r).pending_messages ≡ state.pending_messages
    unfolding apply_type
    messages-binded = rw (step t) (ground arith)

    pub exchanges-binded :
        (x : String)
        → lookup x (apply_record state r).pending_exchanges ≡ (
            if str_eq r.exchange x
            then Option.map (bound r) (lookup x state.pending_exchanges)
            else lookup x state.pending_exchanges)
    unfolding apply_type
    exchanges-binded x =
        rw (step t) (elim (Option-cases (lookup r.exchange state.pending_exchanges)) [
          | inl e ↦ rw (e, bind_pending, apply_type) (ground (arith, eq_iff r.exchange x))
          | inr (y, e) ↦
              rw (e, bind_pending, apply_type)
                (ground (
                  arith,
                  eq_iff r.exchange x,
                  lookup-insert r.exchange x (bound r y) state.pending_exchanges,
                ))
        ])

  module _ (t : r.type ≡ queue_unbinded) where
    pub messages-unbinded : (apply_record state r).pending_messages ≡ state.pending_messages
    unfolding apply_type
    messages-unbinded = rw (step t) (ground arith)

    pub exchanges-unbinded :
        (x : String)
        → lookup x (apply_record state r).pending_exchanges ≡ (
            if str_eq r.exchange x
            then Option.map (unbound r) (lookup x state.pending_exchanges)
            else lookup x state.pending_exchanges)
    unfolding apply_type
    exchanges-unbinded x =
        rw (step t) (elim (Option-cases (lookup r.exchange state.pending_exchanges)) [
          | inl e ↦ rw (e, unbind_pending, apply_type) (ground (arith, eq_iff r.exchange x))
          | inr (y, e) ↦
              rw (e, unbind_pending, apply_type)
                (ground (
                  arith,
                  eq_iff r.exchange x,
                  lookup-insert r.exchange x (unbound r y) state.pending_exchanges,
                ))
        ])
