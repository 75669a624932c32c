-- ===== src/Engine/Broker/Exchanges.antt =====
-- mem_broker.go: CreateExchange, DeleteExchange, ListExchanges, BindQueue and UnbindQueue.
use dsend.Base.{
  String, not, Option, none, some, List, length, keys, lookup, delete, nat_eq, sort_texts,
  if◌then◌else◌,
}
use dsend.Model.{Record, zero_record, exchange_created, exchange_deleted, queue_binded}
use dsend.Storage.{Wal}
use dsend.Exchange.{Exchange, BindingError, new_exchange_factory, bind, unbind, list_bindings}
use dsend.Engine.{
  err_exchange_not_found, err_exchange_exists, err_exchange_not_empty, err_queue_not_found,
  err_invalid_exchange_type,
}
use dsend.Engine.Broker.{Broker, Outcome, put_exchange, log_then, binding_error}
use dsend.Engine.Broker.Names.{validate_binding_key, validate_exchange_name, validate_exchange_type}
use dsend.Engine.Broker.Queues.{queue_unbinded_record}

abbrev pub queue_binded_record : String → String → String → Record
queue_binded_record exchange_name queue_name binding_key = record zero_record {
  type = queue_binded;
  exchange = exchange_name;
  queue = queue_name;
  binding_key = binding_key;
}

abbrev pub exchange_created_record : String → String → Record
exchange_created_record name type = record zero_record {
  type = exchange_created;
  exchange = name;
  exchange_type = type;
}

abbrev pub exchange_deleted_record : String → Record
exchange_deleted_record name = record zero_record { type = exchange_deleted; exchange = name }

module _ {W : Type 0} ⦃wal : Wal W⦄ where
  -- the end of BindQueue and of UnbindQueue, with what the exchange returned: the exchange has changed
  -- when the record is written
  unfoldable pub rebind : Broker W → String → Record → Exchange × Option BindingError → Outcome W
  rebind b exchange_name r (e, some err) = (b, some (binding_error err))
  rebind b exchange_name r (e, none) =
      log_then (put_exchange b exchange_name e) r (λ b'. (b', none))

  -- BindQueue
  unfoldable pub bind_queue : Broker W → String → String → String → Outcome W
  bind_queue b exchange_name queue_name binding_key = elim (validate_binding_key binding_key) [
    | some err ↦ (b, some err)
    | none ↦ elim (lookup exchange_name b.exchanges) [
      | none ↦ (b, some err_exchange_not_found)
      | some e ↦ elim (lookup queue_name b.queues) [
        | none ↦ (b, some err_queue_not_found)
        | some _ ↦
            rebind b exchange_name (queue_binded_record exchange_name queue_name binding_key)
              (bind e binding_key queue_name)
      ]
    ]
  ]

  -- UnbindQueue
  unfoldable pub unbind_queue : Broker W → String → String → String → Outcome W
  unbind_queue b exchange_name queue_name binding_key = elim (lookup exchange_name b.exchanges) [
    | none ↦ (b, some err_exchange_not_found)
    | some e ↦ elim (lookup queue_name b.queues) [
      | none ↦ (b, some err_queue_not_found)
      | some _ ↦
          rebind b exchange_name (queue_unbinded_record exchange_name queue_name binding_key)
            (unbind e binding_key queue_name)
    ]
  ]

  -- CreateExchange
  unfoldable pub create_exchange : Broker W → String → String → Outcome W
  create_exchange b exchange_name exchange_type = elim (validate_exchange_name exchange_name) [
    | some err ↦ (b, some err)
    | none ↦ elim (validate_exchange_type exchange_type) [
      | none ↦ (b, some err_invalid_exchange_type)
      | some type ↦ elim (lookup exchange_name b.exchanges) [
        | some _ ↦ (b, some err_exchange_exists)
        | none ↦
            log_then b (exchange_created_record exchange_name exchange_type) (λ b'.
              (put_exchange b' exchange_name (new_exchange_factory exchange_name type), none))
      ]
    ]
  ]

  -- DeleteExchange
  unfoldable pub delete_exchange : Broker W → String → Outcome W
  delete_exchange b exchange_name = elim (validate_exchange_name exchange_name) [
    | some err ↦ (b, some err)
    | none ↦ elim (lookup exchange_name b.exchanges) [
      | none ↦ (b, some err_exchange_not_found)
      | some e ↦
          if not (nat_eq (length (list_bindings e)) 0)
          then (b, some err_exchange_not_empty)
          else log_then b (exchange_deleted_record exchange_name)
              (λ b'. (record b' { exchanges = delete exchange_name b'.exchanges }, none))
    ]
  ]

-- ListExchanges
unfoldable pub list_exchanges : {W : Type 0} → Broker W → List String
list_exchanges b = sort_texts (keys b.exchanges)
