-- ===== src/Engine/Broker/Queues.antt =====
-- mem_broker.go: CreateQueue, DeleteQueue and ListQueues.
use dsend.Base.{
  String, not, Option, none, some, List, [], ◌∷◌, Map, keys, lookup, delete, str_eq, delete_func,
  sort_texts, if◌then◌else◌,
}
use dsend.Model.{
  Record, zero_record, queue_created, queue_deleted, queue_unbinded, default_queue_name,
}
use dsend.Storage.{Wal}
use dsend.Exchange.{Exchange, BindingError, binding_not_exist, binding_already_exist, unbind}
use dsend.Engine.{
  err_broker_closed, err_queue_exists, err_invalid_queue, err_queue_not_found, err_queue_not_empty,
}
use dsend.Engine.QueueRuntime.{QueueRuntime, close_if_empty, shutdown}
use dsend.Engine.Broker.{
  Broker, Outcome, new_runtime, start_queue, put_queue, put_exchange, log_then, binding_error,
}
use dsend.Engine.Broker.Names.{validate_queue_name}

abbrev pub queue_created_record : String → Record
queue_created_record name = record zero_record { type = queue_created; queue = name }

abbrev pub queue_deleted_record : String → Record
queue_deleted_record name = record zero_record { type = queue_deleted; queue = name }

abbrev pub queue_unbinded_record : String → String → String → Record
queue_unbinded_record exchange_name queue_name binding_key = record zero_record {
  type = queue_unbinded;
  exchange = exchange_name;
  queue = queue_name;
  binding_key = binding_key;
}

-- the entries of tokenOwners that the loop of DeleteQueue keeps
abbrev pub disown : String → Map String → Map String
disown name = delete_func (λ (entry : String × String). str_eq entry.1 name)

module _ {W : Type 0} where
  -- the end of CreateQueue, behind the record
  unfoldable pub queue_added : Broker W → String → Broker W
  unfolding start_queue
  queue_added b name =
      let b' : Broker W = put_queue b name (new_runtime b.cfg name []) in
      if b'.started then start_queue b' name else b'

  -- the end of DeleteQueue, with the runtime that it deletes
  unfoldable pub queue_dropped : Broker W → String → QueueRuntime → Broker W
  queue_dropped b name runtime = record b {
    retired = shutdown runtime ∷ b.retired;
    shared = record b.shared { token_owners = disown name b.shared.token_owners };
  }

  module _ ⦃wal : Wal W⦄ where
    -- CreateQueue
    unfoldable pub create_queue : Broker W → String → Outcome W
    create_queue b name = elim (validate_queue_name name) [
      | some err ↦ (b, some err)
      | none ↦ if b.closed then (b, some err_broker_closed) else elim (lookup name b.queues) [
        | some _ ↦ (b, some err_queue_exists)
        | none ↦ log_then b (queue_created_record name) (λ b'. (queue_added b' name, none))
      ]
    ]

    -- One round of the loop of DeleteQueue over the exchanges, with what Unbind returned.
    unfoldable pub unbind_logged :
        Broker W → String → String → Exchange × Option BindingError → Outcome W
    unbind_logged b exchange_name name (e, some binding_not_exist) = (b, none)
    unbind_logged b exchange_name name (e, some binding_already_exist) =
        (b, some (binding_error binding_already_exist))
    unbind_logged b exchange_name name (e, none) =
        log_then (put_exchange b exchange_name e) (queue_unbinded_record exchange_name name "")
          (λ b'. (b', none))

    unfoldable pub unbind_round : Broker W → String → String → Outcome W
    unbind_round b exchange_name name = elim (lookup exchange_name b.exchanges) [
      | none ↦ (b, none)
      | some e ↦ unbind_logged b exchange_name name (unbind e "" name)
    ]

    -- The loop, over the names of the exchanges.
    unfoldable pub unbind_everywhere : List String → Broker W → String → Outcome W
    unbind_everywhere [] b name = (b, none)
    unbind_everywhere (exchange_name ∷ names) b name =
        let (b', err) = unbind_round b exchange_name name in
        elim err [ none ↦ unbind_everywhere names b' name | some e ↦ (b', some e) ]

    -- What follows the loop, with the retired runtimes that there were before.
    unfoldable pub loop_ended : List QueueRuntime → String → QueueRuntime → Outcome W → Outcome W
    loop_ended retired name runtime (b, none) =
        (queue_dropped (record b { retired = retired }) name runtime, none)
    loop_ended retired name runtime (b, some err) = (b, some err)

    -- the rest of DeleteQueue, with the runtime that CloseIfEmpty has closed
    unfoldable pub delete_closed :
        Broker W → String → QueueRuntime → (List String → List String) → Outcome W
    delete_closed b name runtime order =
        log_then (put_queue b name runtime) (queue_deleted_record name) (λ b'.
          loop_ended b'.retired name runtime (
            unbind_everywhere (order (keys b'.exchanges))
              (record b' { queues = delete name b'.queues; retired = runtime ∷ b'.retired }) name))

    -- DeleteQueue. `order` is the order in which the map of exchanges is ranged over.
    unfoldable pub delete_queue : Broker W → String → (List String → List String) → Outcome W
    delete_queue b name order =
        if str_eq name default_queue_name
        then (b, some err_invalid_queue)
        else elim (lookup name b.queues) [
          | none ↦ (b, some err_queue_not_found)
          | some runtime ↦
              let (runtime', emptied) = close_if_empty runtime in
              if not emptied
              then (b, some err_queue_not_empty)
              else delete_closed b name runtime' order
        ]

  -- ListQueues
  unfoldable pub list_queues : Broker W → List String
  list_queues b = sort_texts (keys b.queues)
