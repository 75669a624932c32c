-- ===== src/Engine/Broker/Startup/Dangling.antt =====
-- A start from a log with a binding of a queue that the log no longer has: NewBroker fails. DeleteQueue
-- leaves such a log when it ends between its record of the queue and those of the bindings.
use dsend.Base.{
  String, true, false, Option, none, some, List, [], ◌∷◌, ◌++◌, ◌≡◌, ◌≢◌, refl, sym, ap, subst, ◌∙◌,
  arith, inl, inr, Map, lookup, has, has-some, str_eq_of_ne, text_cases, Option-cases, All, eq_iff,
}
use mathlib.Core.Option
use mathlib.Core.Option.{some-injective}
use dsend.Model.{Binding, Record, default_queue_name, default_exchange_name}
use dsend.Storage.{Wal, IsWal, ExchangeState, RecoveredState, replay}
use dsend.Storage.Pending.{replay-append}
use dsend.Storage.Topology.{messages-deleted, exchanges-deleted}
use dsend.Exchange.{Exchange, BindingError, bind, has_binding}
use dsend.Engine.{Config, Shared}
use dsend.Engine.QueueRuntime.{QueueRuntime}
use dsend.Engine.Broker.{Broker, Outcome, put_exchange, new_in_memory_broker}
use dsend.Engine.Broker.Names.{validate_binding_key, validate_exchange_name, validate_exchange_type}
use dsend.Engine.Broker.Queues.{queue_deleted_record}
use dsend.Engine.Broker.Exchanges.{bind_queue, rebind, create_exchange, exchange_created_record}
use dsend.Engine.Broker.Agrees.{state_of}
use dsend.Engine.Broker.Sound.{LeadsTo, Sound, log_then_cases}
use dsend.Engine.Broker.Startup.{
  restore_bindings, restore_exchange, restore_exchanges, with_queues, bind_default, new_broker,
}
use dsend.Engine.Broker.Startup.Queues.{has-start}
use dsend.Engine.Broker.Startup.Recovered.{Loads}

module _ {W : Type 0} ⦃wal : Wal W⦄ where
  -- A call that leaves the queues alone.
  abbrev SameQueues : Broker W → Outcome W → Type 0
  SameQueues b o = o.0.queues ≡ b.queues

  rebind-SameQueues :
      (b : Broker W) (name : String) (r : Record) (o : Exchange × Option BindingError)
      → SameQueues b (rebind b name r o)
  unfolding rebind
  rebind-SameQueues b name r (e, some err) = refl
  rebind-SameQueues b name r (e, none) =
      log_then_cases (SameQueues b) (put_exchange b name e) r _ (λ _. refl) (λ _. refl)

  -- BindQueue; if it returns no error, there is the queue.
  bound :
      (b : Broker W) (name queue_name binding_key : String)
      → let o = bind_queue b name queue_name binding_key in
        SameQueues b o × (o.1 ≡ none → has queue_name b.queues ≡ true)
  unfolding bind_queue
  bound b name queue_name binding_key = elim (Option-cases (validate_binding_key binding_key)) [
    | inr (err, e) ↦ rw (e, bind_queue) (refl, λ f. cc f)
    | inl valid ↦ elim (Option-cases (lookup name b.exchanges)) [
      | inl e ↦ rw (valid, e, bind_queue) (refl, λ f. cc f)
      | inr (ex, found) ↦ elim (Option-cases (lookup queue_name b.queues)) [
        | inl e ↦ rw (valid, found, e, bind_queue) (refl, λ f. cc f)
        | inr (q, known) ↦
            rw (valid, found, known, bind_queue)
              (
                rebind-SameQueues b name _ (bind ex binding_key queue_name),
                λ _. has-some queue_name b.queues known,
              )
      ]
    ]
  ]

  created : (b : Broker W) (name text : String) → SameQueues b (create_exchange b name text)
  unfolding create_exchange
  created b name text = elim (Option-cases (validate_exchange_name name)) [
    | inr (err, e) ↦ rw (e, create_exchange) refl
    | inl named ↦ elim (Option-cases (validate_exchange_type text)) [
      | inl e ↦ rw (named, e, create_exchange) refl
      | inr (type, typed) ↦ elim (Option-cases (lookup name b.exchanges)) [
        | inr (old, e) ↦ rw (named, typed, e, create_exchange) refl
        | inl new ↦
            rw (named, typed, new, create_exchange)
              (log_then_cases (SameQueues b) b (exchange_created_record name text) _ (λ _. refl)
                (λ _. refl))
      ]
    ]
  ]

  bindings_bound :
      (name : String) (bs : List Binding) (b : Broker W)
      → let o = restore_bindings name bs b in
        SameQueues b o × (o.1 ≡ none → All (LeadsTo b.queues) bs)
  unfolding restore_bindings
  bindings_bound name [] b = (refl, λ _. tt)
  bindings_bound name (binding ∷ bs) b =
      let (same, leads) = bound b name binding.queue_name binding.binding_key in
      elim (Option-cases (bind_queue b name binding.queue_name binding.binding_key).1) [
        | inr (err, e) ↦ rw (e, restore_bindings) (same, λ f. cc f)
        | inl e ↦
            let (same', rest) = bindings_bound name bs _ in
            rw (e, restore_bindings)
              (
                same' ∙ same,
                λ f. (leads e, subst (λ (m : Map QueueRuntime). All (LeadsTo m) bs) same (rest f)),
              )
      ]

  exchange_bound :
      (name : String) (state : ExchangeState) (b : Broker W)
      → let o = restore_exchange name state b in
        SameQueues b o × (o.1 ≡ none → All (LeadsTo b.queues) state.bindings)
  unfolding restore_exchange
  exchange_bound name state b =
      let same = created b name state.exchange_type in
      elim (Option-cases (create_exchange b name state.exchange_type).1) [
        | inr (err, e) ↦ rw (e, restore_exchange) (same, λ f. cc f)
        | inl e ↦
            let (same', rest) = bindings_bound name state.bindings _ in
            rw (e, restore_exchange)
              (
                same' ∙ same,
                λ f. subst (λ (m : Map QueueRuntime). All (LeadsTo m) state.bindings) same (rest f),
              )
      ]

  exchanges_bound :
      (left : Map ExchangeState) (b : Broker W)
      → (restore_exchanges left b).1 ≡ none
      → (x : String) (state : ExchangeState) → lookup x left ≡ some state
      → All (LeadsTo b.queues) state.bindings
  unfolding restore_exchanges lookup
  exchanges_bound [] b = λ _ x state e. cc e
  exchanges_bound ((name, s) ∷ rest) b =
      let (same, leads) = exchange_bound name s b in
      elim (Option-cases (restore_exchange name s b).1) [
        | inr (err, e) ↦ rw (e, restore_exchanges) (λ f. cc f)
        | inl e ↦
            rw (e, restore_exchanges)
              (λ fine x state found. elim (text_cases name x) [
                | inl (h, _) ↦
                    subst (λ (t : ExchangeState). All (LeadsTo b.queues) t.bindings)
                      (some-injective s state (rw h at found)) (leads e)
                | inr (h, _) ↦
                    subst (λ (m : Map QueueRuntime). All (LeadsTo m) state.bindings) same
                      (exchanges_bound rest _ fine x state (rw h at found))
              ])
      ]

  fine_before : (o : Outcome W) → (bind_default o).1 ≡ none → o.1 ≡ none
  unfolding bind_default
  fine_before (b, none) = λ _. refl
  fine_before (b, some err) = λ e. e

-- A binding of a queue leads to it.
pub leads_there :
    (queues : Map QueueRuntime) (name : String) (bs : List Binding)
    → has_binding bs "" name ≡ true
    → All (LeadsTo queues) bs
    → has name queues ≡ true
unfolding has_binding
leads_there queues name [] h all = cc h
leads_there queues name (b ∷ bs) h all = elim (text_cases b.queue_name name) [
  | inl (_, p) ↦ subst (λ k. has k queues ≡ true) p all.0
  | inr (k, _) ↦ leads_there queues name bs (rw k at h) all.1
]

module _ {W : Type 0} ⦃wal : Wal W⦄ (laws : IsWal wal) (b : Broker W) (t : Sound laws b)
    (name : String) (named : name ≢ default_queue_name) (state : RecoveredState)
    (loads : Loads (laws.log b.shared.wal ++ queue_deleted_record name ∷ []) state) where
  not_started :
      (cfg : Config) (shared : Shared W)
      → has name (with_queues cfg shared state.pending_messages).queues ≡ false
  unfolding with_queues new_in_memory_broker
  not_started cfg shared =
      has-start cfg name state.pending_messages loads.messages_map
      ∙ ground (
        arith,
        loads.messages name
            ∙ ap (λ (s : RecoveredState). lookup name s.pending_messages)
                (replay-append (laws.log b.shared.wal) (queue_deleted_record name))
            ∙ messages-deleted (replay (laws.log b.shared.wal)) (queue_deleted_record name) refl
                name,
        eq_iff name name,
        str_eq_of_ne (λ p. named (sym p)),
      )

  -- In a sound broker, an exchange other than the default one has a binding of a queue other than the
  -- default one, and the log goes on with the record that the queue is deleted and ends there, as when
  -- DeleteQueue fails or stops at that point: NewBroker, on what Load returns, ends with an error.
  pub dangling :
      (cfg : Config) (shared : Shared W) (x : String) (e : Exchange)
      → x ≢ default_exchange_name
      → lookup x b.exchanges ≡ some e
      → has_binding e.bindings "" name ≡ true
      → (o : Outcome W) × (new_broker cfg shared (some state) ≡ some o) × (o.1 ≢ none)
  unfolding new_broker
  dangling cfg shared x e other here bound_there =
      let begin = with_queues cfg shared state.pending_messages in
      let logged =
        loads.exchanges x
        ∙ ap (λ (s : RecoveredState). lookup x s.pending_exchanges)
            (replay-append (laws.log b.shared.wal) (queue_deleted_record name))
        ∙ ap (λ (m : Map ExchangeState). lookup x m)
            (exchanges-deleted (replay (laws.log b.shared.wal)) (queue_deleted_record name) refl)
        ∙ t.agrees.exchanges_logged x other
        ∙ ap (Option.map state_of) here in
      (
        bind_default (restore_exchanges state.pending_exchanges begin),
        refl,
        λ fine.
            let all =
              exchanges_bound state.pending_exchanges begin (fine_before _ fine) x (state_of e)
                logged in
            cc (leads_there begin.queues name e.bindings bound_there all, not_started cfg shared),
      )
