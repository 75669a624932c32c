-- ===== src/Engine/Broker/Rebound.antt =====
-- CreateExchange, DeleteExchange, BindQueue and UnbindQueue keep the broker sound; the last two change
-- the exchange before they log it, and keep it sound unless the log refuses the record.
pub mod Bound
use mathlib.Core.Path.{fun_ext}
use mathlib.Core.Option.{some-injective}
use dsend.Base.{
  String, Bool, true, not, Option, none, some, [], ◌∷◌, ◌++◌, ◌≡◌, ◌≢◌, refl, ap, subst, arith, inl,
  inr, Map, lookup, insert, delete, has, has-insert, has-delete, has-some, lookup-insert,
  lookup-delete, eq_iff, nat_eq, text_cases, if_cases, Option-cases, All, All-append,
  All-delete_func, delete_func, length,
}
use dsend.Model.{
  Binding, Record, ExchangeType, exchange_type_text, default_exchange_name, direct_exchange,
  fan_out_exchange, topic_exchange,
}
use dsend.Storage.{Wal, IsWal, replay, apply_record, ExchangeState}
use dsend.Storage
use dsend.Storage.Pending.{replay-append}
use dsend.Storage.Topology.{
  messages-exchange_created, messages-exchange_deleted, messages-binded, messages-unbinded,
}
use dsend.Exchange.{
  Exchange, BindingError, new_exchange_factory, bind, unbind, is_unbound, list_bindings,
  check_binding_exists, has_binding,
}
use dsend.Engine.{err_wal_append}
use dsend.Engine.QueueRuntime.{QueueRuntime}
use dsend.Engine.Broker.{Broker, Outcome, put_exchange, with_log}
use dsend.Engine.Broker.Names.{validate_exchange_name, validate_exchange_type, validate_binding_key}
use dsend.Engine.Broker.Queues.{queue_unbinded_record}
use dsend.Engine.Broker.Exchanges.{
  exchange_created_record, exchange_deleted_record, queue_binded_record, create_exchange,
  delete_exchange, rebind, bind_queue, unbind_queue,
}
use dsend.Engine.Broker.Agrees.{
  Agrees, exchange_created-Agrees, exchange_deleted-Agrees, binded-Agrees, unbinded-Agrees,
}
use dsend.Engine.Broker.Sound.{LeadsTo, AreBound, Sound, log_then_cases}
use dsend.Engine.Broker.Changes.{unlogged, exchanges-Settled}

-- A name that the broker accepts is not the default exchange's.
pub validate_exchange_name_lem :
    (name : String) → validate_exchange_name name ≡ none → name ≢ default_exchange_name
unfolding validate_exchange_name
validate_exchange_name_lem name h p = ground (arith, eq_iff name "default")

-- A text that the broker accepts is the text of the type that it stands for.
pub validate_exchange_type_lem :
    (text : String) (type : ExchangeType)
    → validate_exchange_type text ≡ some type
    → exchange_type_text type ≡ text
unfolding validate_exchange_type
validate_exchange_type_lem text direct_exchange h = ground (arith, eq_iff text "direct")
validate_exchange_type_lem text fan_out_exchange h = ground (arith, eq_iff text "fanout")
validate_exchange_type_lem text topic_exchange h = ground (arith, eq_iff text "topic")

-- The exchange and the replay delete the same bindings.
pub same_test :
    (name queue_name binding_key : String)
    → is_unbound binding_key queue_name
      ≡ Storage.is_unbound (queue_unbinded_record name queue_name binding_key)
unfolding is_unbound Storage.is_unbound
same_test name queue_name binding_key = fun_ext (λ binding. ground arith)

module _ (queues : Map QueueRuntime) (exchanges : Map Exchange)
    (bound : AreBound queues exchanges) where
  pub AreBound-insert :
      (name : String) (e : Exchange)
      → All (LeadsTo queues) e.bindings
      → AreBound queues (insert name e exchanges)
  AreBound-insert name e all x found here = elim (text_cases name x) [
    | inl (h, p) ↦
        subst (λ (f : Exchange). All (LeadsTo queues) f.bindings)
          (some-injective e found (rw (lookup-insert, h) at here)) all
    | inr (h, p) ↦ bound x found (rw (lookup-insert, h) at here)
  ]

  pub AreBound-delete : (name : String) → AreBound queues (delete name exchanges)
  AreBound-delete name x found here = elim (text_cases name x) [
    | inl (h, p) ↦ cc (rw (lookup-delete, h) at here)
    | inr (h, p) ↦ bound x found (rw (lookup-delete, h) at here)
  ]

-- After a record that changes the exchanges alone.
pub exchanges-Sound :
    {W : Type 0} ⦃wal : Wal W⦄ (laws : IsWal wal) {b : Broker W} (t : Sound laws b) (r : Record)
    {exchanges : Map Exchange}
    → (apply_record (replay (laws.log b.shared.wal)) r).pending_messages
      ≡ (replay (laws.log b.shared.wal)).pending_messages
    → Agrees (apply_record (replay (laws.log b.shared.wal)) r) b.queues exchanges
    → (wal.append b.shared.wal r).1 ≡ true
    → has default_exchange_name exchanges ≡ true
    → AreBound b.queues exchanges
    → Sound laws (record (with_log b (wal.append b.shared.wal r).0) { exchanges = exchanges })
exchanges-Sound laws t r messages agrees done default_exchange are_bound = record {
  settled = exchanges-Settled laws t.settled r messages agrees done default_exchange;
  are_bound = are_bound;
}

module _ {W : Type 0} ⦃wal : Wal W⦄ (laws : IsWal wal) {b : Broker W} (t : Sound laws b) where
  -- CreateExchange keeps the broker sound, whatever it returns.
  pub create_exchange-Sound : (name type : String) → Sound laws (create_exchange b name type).0
  unfolding create_exchange new_exchange_factory
  create_exchange-Sound name text = elim (Option-cases (validate_exchange_name name)) [
    | inr (err, e) ↦ rw (e, create_exchange) t
    | inl named ↦ elim (Option-cases (validate_exchange_type text)) [
      | inl e ↦ rw (named, e, create_exchange) t
      | inr (type, typed) ↦ elim (Option-cases (lookup name b.exchanges)) [
        | inr (old, e) ↦ rw (named, typed, e, create_exchange) t
        | inl new ↦
            let r = exchange_created_record name text in
            let ex = new_exchange_factory name type in
            rw (named, typed, new, create_exchange)
              (log_then_cases (λ (o : Outcome W). Sound laws o.0) b r
                (λ b'. (put_exchange b' name ex, none))
                (λ done.
                  exchanges-Sound laws t r
                    (messages-exchange_created (replay (laws.log b.shared.wal)) r refl)
                    (exchange_created-Agrees t.agrees r ex refl
                      (validate_exchange_name_lem name named)
                      (ap (λ (s : String). record { exchange_type = s; bindings = [] })
                        (validate_exchange_type_lem text type typed)))
                    done
                    (ground (
                      arith,
                      has-insert name default_exchange_name ex b.exchanges,
                      t.default_exchange,
                    ))
                    (AreBound-insert b.queues b.exchanges t.are_bound name ex tt))
                (unlogged laws t r))
      ]
    ]
  ]

  -- DeleteExchange keeps the broker sound, whatever it returns.
  pub delete_exchange-Sound : (name : String) → Sound laws (delete_exchange b name).0
  unfolding delete_exchange
  delete_exchange-Sound name = elim (Option-cases (validate_exchange_name name)) [
    | inr (err, e) ↦ rw (e, delete_exchange) t
    | inl named ↦ elim (Option-cases (lookup name b.exchanges)) [
      | inl e ↦ rw (named, e, delete_exchange) t
      | inr (ex, e) ↦
          let r = exchange_deleted_record name in
          rw (named, e, delete_exchange)
            (if_cases (λ (o : Outcome W). Sound laws o.0)
              (not (nat_eq (length (list_bindings ex)) 0)) (λ _. t)
              (λ _.
                log_then_cases (λ (o : Outcome W). Sound laws o.0) b r
                  (λ b'. (record b' { exchanges = delete name b'.exchanges }, none))
                  (λ done.
                    exchanges-Sound laws t r
                      (messages-exchange_deleted (replay (laws.log b.shared.wal)) r refl)
                      (exchange_deleted-Agrees t.agrees r refl) done
                      (ground (
                        arith,
                        has-delete name default_exchange_name b.exchanges,
                        t.default_exchange,
                        validate_exchange_name_lem name named,
                        eq_iff name default_exchange_name,
                      ))
                      (AreBound-delete b.queues b.exchanges t.are_bound name))
                  (unlogged laws t r)))
    ]
  ]

  -- Sound, unless the log has refused a record.
  abbrev pub SoundUnlessRefused : Outcome W → Type 0
  SoundUnlessRefused o = o.1 ≢ some err_wal_append → Sound laws o.0
