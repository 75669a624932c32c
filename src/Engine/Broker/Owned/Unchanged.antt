-- ===== src/Engine/Broker/Owned/Unchanged.antt =====
-- The calls that change neither a queue nor an owner.
use dsend.Base.{
  String, not, Option, none, some, List, [], ◌∷◌, refl, inl, inr, lookup, nat_eq, length, if_cases,
  Option-cases,
}
use dsend.Model.{Record}
use dsend.Storage.{Wal}
use dsend.Exchange.{
  Exchange, BindingError, binding_not_exist, binding_already_exist, unbind, list_bindings,
}
use dsend.Engine.Broker.{Broker, Outcome, put_exchange}
use dsend.Engine.Broker.Names.{validate_binding_key, validate_exchange_name, validate_exchange_type}
use dsend.Engine.Broker.Queues.{
  queue_unbinded_record, unbind_logged, unbind_round, unbind_everywhere,
}
use dsend.Engine.Broker.Exchanges.{
  exchange_deleted_record, rebind, create_exchange, delete_exchange, bind_queue, unbind_queue,
}
use dsend.Engine.Broker.Owned.{Same, Same-trans, itself}
use dsend.Engine.Broker.Sound.{log_then_cases}

module _ {W : Type 0} ⦃wal : Wal W⦄ where
  -- The rounds of DeleteQueue over the exchanges, and the calls that only change exchanges.
  pub unbind_round-Same : (b : Broker W) (x name : String) → Same b (unbind_round b x name).0
  unfolding unbind_round unbind_logged
  unbind_round-Same b x name = elim (Option-cases (lookup x b.exchanges)) [
    | inl e ↦ rw (e, unbind_round) (itself b)
    | inr (ex, found) ↦ rw (found, unbind_round) (logged (unbind ex "" name))
  ]
    where
      logged : (o : Exchange × Option BindingError) → Same b (unbind_logged b x name o).0
      logged (e, some binding_not_exist) = itself b
      logged (e, some binding_already_exist) = itself b
      logged (e, none) =
          log_then_cases (λ r. Same b r.0) (put_exchange b x e) (queue_unbinded_record x name "") _
            (λ _. record { queues = refl; owners = refl; closed = refl })
            (λ _. record { queues = refl; owners = refl; closed = refl })

  pub unbind_everywhere-Same :
      (xs : List String) (b : Broker W) (name : String) → Same b (unbind_everywhere xs b name).0
  unfolding unbind_everywhere
  unbind_everywhere-Same [] b name = itself b
  unbind_everywhere-Same (x ∷ xs) b name = elim (Option-cases (unbind_round b x name).1) [
    | inl e ↦
        rw (e, unbind_everywhere)
          (Same-trans (unbind_round-Same b x name) (unbind_everywhere-Same xs _ name))
    | inr (err, e) ↦ rw (e, unbind_everywhere) (unbind_round-Same b x name)
  ]

  pub rebind-Same :
      (b : Broker W) (name : String) (r : Record) (o : Exchange × Option BindingError)
      → Same b (rebind b name r o).0
  unfolding rebind
  rebind-Same b name r (e, some err) = itself b
  rebind-Same b name r (e, none) =
      log_then_cases (λ o. Same b o.0) (put_exchange b name e) r _
        (λ _. record { queues = refl; owners = refl; closed = refl })
        (λ _. record { queues = refl; owners = refl; closed = refl })

  pub bind_queue-Same :
      (b : Broker W) (name queue_name key : String) → Same b (bind_queue b name queue_name key).0
  unfolding bind_queue
  bind_queue-Same b name queue_name key = elim (Option-cases (validate_binding_key key)) [
    | inr (err, e) ↦ rw (e, bind_queue) (itself b)
    | inl e ↦ elim (Option-cases (lookup name b.exchanges)) [
      | inl f ↦ rw (e, f, bind_queue) (itself b)
      | inr (ex, f) ↦ elim (Option-cases (lookup queue_name b.queues)) [
        | inl g ↦ rw (e, f, g, bind_queue) (itself b)
        | inr (q, g) ↦ rw (e, f, g, bind_queue) (rebind-Same b name _ _)
      ]
    ]
  ]

  pub unbind_queue-Same :
      (b : Broker W) (name queue_name key : String) → Same b (unbind_queue b name queue_name key).0
  unfolding unbind_queue
  unbind_queue-Same b name queue_name key = elim (Option-cases (lookup name b.exchanges)) [
    | inl f ↦ rw (f, unbind_queue) (itself b)
    | inr (ex, f) ↦ elim (Option-cases (lookup queue_name b.queues)) [
      | inl g ↦ rw (f, g, unbind_queue) (itself b)
      | inr (q, g) ↦ rw (f, g, unbind_queue) (rebind-Same b name _ _)
    ]
  ]

  pub create_exchange-Same :
      (b : Broker W) (name type : String) → Same b (create_exchange b name type).0
  unfolding create_exchange
  create_exchange-Same b name type = elim (Option-cases (validate_exchange_name name)) [
    | inr (err, e) ↦ rw (e, create_exchange) (itself b)
    | inl e ↦ elim (Option-cases (validate_exchange_type type)) [
      | inl f ↦ rw (e, f, create_exchange) (itself b)
      | inr (t, f) ↦ elim (Option-cases (lookup name b.exchanges)) [
        | inr (ex, g) ↦ rw (e, f, g, create_exchange) (itself b)
        | inl g ↦
            rw (e, f, g, create_exchange)
              (log_then_cases (λ o. Same b o.0) b _ _
                (λ _. record { queues = refl; owners = refl; closed = refl })
                (λ _. record { queues = refl; owners = refl; closed = refl }))
      ]
    ]
  ]

  pub delete_exchange-Same : (b : Broker W) (name : String) → Same b (delete_exchange b name).0
  unfolding delete_exchange
  delete_exchange-Same b name = elim (Option-cases (validate_exchange_name name)) [
    | inr (err, e) ↦ rw (e, delete_exchange) (itself b)
    | inl e ↦ elim (Option-cases (lookup name b.exchanges)) [
      | inl f ↦ rw (e, f, delete_exchange) (itself b)
      | inr (ex, f) ↦
          rw (e, f, delete_exchange)
            (if_cases (λ (o : Outcome W). Same b o.0) (not (nat_eq (length (list_bindings ex)) 0))
              (λ _. itself b)
              (λ _.
                log_then_cases (λ o. Same b o.0) b (exchange_deleted_record name) _
                  (λ _. record { queues = refl; owners = refl; closed = refl })
                  (λ _. record { queues = refl; owners = refl; closed = refl })))
    ]
  ]
