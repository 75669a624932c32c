-- ===== src/Engine/Broker/Restorable.antt =====
-- Every exchange that a broker has can be built again by CreateExchange and BindQueue: its name and its
-- keys are valid, and no binding stands twice.
pub mod Reached
use dsend.Base.{
  String, not, ◌||◌, Option, none, some, List, [], ◌∷◌, ◌≡◌, ◌≢◌, subst, inl, inr, Map, keys,
  lookup, insert, delete, lookup-insert, lookup-delete, text_cases, if_cases, Option-cases, All,
  All-append, All-delete_func, delete_func, nat_eq, length,
}
use mathlib.Core.Option.{some-injective}
use dsend.Model.{Binding, Record, default_queue_name, default_exchange_name}
use dsend.Storage.{Wal}
use dsend.Exchange.{
  Exchange, BindingError, binding_not_exist, binding_already_exist, new_exchange_factory, bind,
  unbind, check_binding_exists, has_binding, list_bindings,
}
use dsend.Exchange.Fresh.{Fresh, Fresh-append, Fresh-delete_func}
use dsend.Engine.QueueRuntime.{QueueRuntime, close_if_empty}
use dsend.Engine.Broker.{Broker, Outcome, put_queue, put_exchange, start_queue}
use dsend.Engine.Broker.Names.{
  validate_queue_name, validate_exchange_name, validate_exchange_type, validate_binding_key,
}
use dsend.Engine.Broker.Queues.{
  queue_created_record, queue_deleted_record, queue_unbinded_record, queue_added, queue_dropped,
  create_queue, loop_ended, unbind_logged, unbind_round, unbind_everywhere, delete_closed,
  delete_queue,
}
use dsend.Engine.Broker.Exchanges.{
  exchange_created_record, exchange_deleted_record, create_exchange, delete_exchange, rebind,
  bind_queue, unbind_queue,
}
use dsend.Engine.Broker.Messages.{start, start_all, shutdown}
use dsend.Engine.Broker.Sound.{log_then_cases}
use dsend.Engine.Broker.Steps.{
  Step, creates_queue, deletes_queue, creates_exchange, deletes_exchange, binds, unbinds, starts,
  shuts_down, works, Reach, here, next,
}

pub record IsRestorable (x : String) (e : Exchange) : Type 0 where
  pub named : x ≢ default_exchange_name → validate_exchange_name x ≡ none
  pub keyed : All (λ (b : Binding). validate_binding_key b.binding_key ≡ none) e.bindings
  pub fresh : Fresh [] e.bindings

abbrev pub AreRestorable : Map Exchange → Type 0
AreRestorable exchanges =
    (x : String) (e : Exchange) → lookup x exchanges ≡ some e → IsRestorable x e

module _ (exchanges : Map Exchange) (t : AreRestorable exchanges) (name : String) where
  AreRestorable-insert :
      (e : Exchange) → IsRestorable name e → AreRestorable (insert name e exchanges)
  AreRestorable-insert e r x found at_x = elim (text_cases name x) [
    | inl (h, p) ↦
        subst (λ (f : Exchange). IsRestorable x f)
          (some-injective e found (rw (lookup-insert, h) at at_x))
          (subst (λ n. IsRestorable n e) p r)
    | inr (h, p) ↦ t x found (rw (lookup-insert, h) at at_x)
  ]

  AreRestorable-delete : AreRestorable (delete name exchanges)
  AreRestorable-delete x found at_x = elim (text_cases name x) [
    | inl (h, p) ↦ cc (rw (lookup-delete, h) at at_x)
    | inr (h, p) ↦ t x found (rw (lookup-delete, h) at at_x)
  ]

module _ (x : String) (e : Exchange) (r : IsRestorable x e) (binding_key queue_name : String) where
  IsRestorable-unbind : IsRestorable x (unbind e binding_key queue_name).0
  unfolding unbind delete_func
  IsRestorable-unbind =
      if_cases (λ (o : Exchange × Option BindingError). IsRestorable x o.0)
        (not (has_binding e.bindings binding_key queue_name)) (λ _. r)
        (λ _. record {
          named = r.named;
          keyed = All-delete_func _ _ e.bindings r.keyed;
          fresh = Fresh-delete_func _ [] e.bindings r.fresh;
        })

  IsRestorable-bind :
      validate_binding_key binding_key ≡ none → IsRestorable x (bind e binding_key queue_name).0
  unfolding bind
  IsRestorable-bind valid =
      if_cases (λ (o : Exchange × Option BindingError). IsRestorable x o.0)
        (check_binding_exists e.bindings binding_key queue_name) (λ _. r)
        (λ new. record {
          named = r.named;
          keyed = All-append _ e.bindings _ r.keyed (valid, tt);
          fresh = Fresh-append [] e.bindings _ r.fresh new;
        })

module _ {W : Type 0} ⦃wal : Wal W⦄ where
  abbrev pub Keeps : Outcome W → Type 0
  Keeps o = AreRestorable o.0.exchanges

  module _ (b : Broker W) (t : AreRestorable b.exchanges) where
    pub created : (name : String) → Keeps (create_queue b name)
    unfolding create_queue queue_added start_queue
    created name = elim (Option-cases (validate_queue_name name)) [
      | inr (err, e) ↦ rw (e, create_queue) t
      | inl e ↦
          rw (e, create_queue)
            (if_cases Keeps b.closed (λ _. t)
              (λ _. elim (Option-cases (lookup name b.queues)) [
                | inr (q, old) ↦ rw old t
                | inl new ↦ rw new (
                    log_then_cases Keeps b (queue_created_record name) _
                      (λ _.
                        if_cases (λ (c : Broker W). AreRestorable c.exchanges) b.started (λ _. t)
                          (λ _. t))
                      (λ _. t))
              ]))
    ]

    pub exchange_created : (name type : String) → Keeps (create_exchange b name type)
    unfolding create_exchange new_exchange_factory
    exchange_created name text = elim (Option-cases (validate_exchange_name name)) [
      | inr (err, e) ↦ rw (e, create_exchange) t
      | inl named ↦ elim (Option-cases (validate_exchange_type text)) [
        | inl e ↦ rw (named, e, create_exchange) t
        | inr (type, typed) ↦ elim (Option-cases (lookup name b.exchanges)) [
          | inr (old, e) ↦ rw (named, typed, e, create_exchange) t
          | inl new ↦
              rw (named, typed, new, create_exchange)
                (log_then_cases Keeps b (exchange_created_record name text) _
                  (λ _.
                    AreRestorable-insert b.exchanges t name (new_exchange_factory name type)
                      (record { named = λ _. named; keyed = tt; fresh = tt }))
                  (λ _. t))
        ]
      ]
    ]

    pub exchange_deleted : (name : String) → Keeps (delete_exchange b name)
    unfolding delete_exchange
    exchange_deleted name = elim (Option-cases (validate_exchange_name name)) [
      | inr (err, e) ↦ rw (e, delete_exchange) t
      | inl named ↦ elim (Option-cases (lookup name b.exchanges)) [
        | inl e ↦ rw (named, e, delete_exchange) t
        | inr (ex, e) ↦
            rw (named, e, delete_exchange)
              (if_cases Keeps (not (nat_eq (length (list_bindings ex)) 0)) (λ _. t)
                (λ _.
                  log_then_cases Keeps b (exchange_deleted_record name) _
                    (λ _. AreRestorable-delete b.exchanges t name) (λ _. t)))
      ]
    ]

    rebound :
        (name : String) (r : Record) (o : Exchange × Option BindingError)
        → IsRestorable name o.0
        → Keeps (rebind b name r o)
    unfolding rebind
    rebound name r (e, some err) ok = t
    rebound name r (e, none) ok =
        log_then_cases Keeps (put_exchange b name e) r _
          (λ _. AreRestorable-insert b.exchanges t name e ok)
          (λ _. AreRestorable-insert b.exchanges t name e ok)

    pub bound :
        (name queue_name binding_key : String) → Keeps (bind_queue b name queue_name binding_key)
    unfolding bind_queue
    bound name queue_name binding_key = elim (Option-cases (validate_binding_key binding_key)) [
      | inr (err, e) ↦ rw (e, bind_queue) t
      | inl valid ↦ elim (Option-cases (lookup name b.exchanges)) [
        | inl e ↦ rw (valid, e, bind_queue) t
        | inr (ex, found) ↦ elim (Option-cases (lookup queue_name b.queues)) [
          | inl e ↦ rw (valid, found, e, bind_queue) t
          | inr (q, known) ↦
              rw (valid, found, known, bind_queue)
                (rebound name _ (bind ex binding_key queue_name)
                  (IsRestorable-bind name ex (t name ex found) binding_key queue_name valid))
        ]
      ]
    ]

    pub unbound :
        (name queue_name binding_key : String) → Keeps (unbind_queue b name queue_name binding_key)
    unfolding unbind_queue
    unbound name queue_name binding_key = elim (Option-cases (lookup name b.exchanges)) [
      | inl e ↦ rw (e, unbind_queue) t
      | inr (ex, found) ↦ elim (Option-cases (lookup queue_name b.queues)) [
        | inl e ↦ rw (found, e, unbind_queue) t
        | inr (q, known) ↦
            rw (found, known, unbind_queue)
              (rebound name _ (unbind ex binding_key queue_name)
                (IsRestorable-unbind name ex (t name ex found) binding_key queue_name))
      ]
    ]

    logged :
        (x name : String) (o : Exchange × Option BindingError)
        → IsRestorable x o.0
        → Keeps (unbind_logged b x name o)
    unfolding unbind_logged
    logged x name (e, some binding_not_exist) ok = t
    logged x name (e, some binding_already_exist) ok = t
    logged x name (e, none) ok =
        log_then_cases Keeps (put_exchange b x e) (queue_unbinded_record x name "") _
          (λ _. AreRestorable-insert b.exchanges t x e ok)
          (λ _. AreRestorable-insert b.exchanges t x e ok)

    pub round : (x name : String) → Keeps (unbind_round b x name)
    unfolding unbind_round
    round x name = elim (Option-cases (lookup x b.exchanges)) [
      | inl e ↦ rw (e, unbind_round) t
      | inr (ex, found) ↦
          rw (found, unbind_round)
            (logged x name (unbind ex "" name) (IsRestorable-unbind x ex (t x ex found) "" name))
    ]
