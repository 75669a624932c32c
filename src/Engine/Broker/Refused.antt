-- ===== src/Engine/Broker/Refused.antt =====
-- What DeleteQueue and BindQueue leave behind when the log refuses their record.
use text.Mathlib.TextPositions.{eq_refl}
use dsend.Base.{
  ℤ, ℕ, String, true, false, none, some, List, ◌≡◌, ◌≢◌, refl, ap, arith, lookup, lookup-insert,
  str_eq_of_ne,
}
use dsend.Model.{Message, default_queue_name}
use dsend.Storage.{Wal, IsWal}
use dsend.Exchange.{Exchange, bind}
use dsend.Exchange.Bindings.{bind_twice}
use dsend.Engine.{Shared, err_wal_append, err_broker_closed, err_binding_already_exist}
use dsend.Engine.QueueRuntime.{QueueRuntime, close_if_empty}
use dsend.Engine.QueueRuntime.Produce
use dsend.Engine.Broker.{Broker, Outcome, log_then, put_exchange, with_log}
use dsend.Engine.Broker.Names.{validate_binding_key}
use dsend.Engine.Broker.Queues.{queue_deleted_record, delete_queue, delete_closed}
use dsend.Engine.Broker.Exchanges.{bind_queue, rebind, queue_binded_record}

close_lem : (q : QueueRuntime) → (close_if_empty q).1 ≡ true → (close_if_empty q).0.closed ≡ true
unfolding close_if_empty
close_lem q = ground arith

module _ {W : Type 0} ⦃wal : Wal W⦄ (b : Broker W) where
  -- DeleteQueue of a queue other than the default one, which exists and is empty, when the log refuses
  -- the record: it returns the error, and the queue stays in the broker with a runtime that is closed, so
  -- that every later Publish to it fails with ErrBrokerClosed.
  pub delete_refused :
      (name : String) (order : List String → List String) (q : QueueRuntime)
      → name ≢ default_queue_name
      → lookup name b.queues ≡ some q
      → (close_if_empty q).1 ≡ true
      → (wal.append b.shared.wal (queue_deleted_record name)).1 ≡ false
      → (s : Shared W) (message : Message) (ttl : ℤ) (id : String) (now : ℕ)
      → let o = delete_queue b name order in
        (o.1 ≡ some err_wal_append)
        × (q' : QueueRuntime) × (lookup name o.0.queues ≡ some q')
        × (Produce.publish q' s message ttl id now ≡ some (q', s, some err_broker_closed))
  unfolding delete_queue delete_closed log_then Produce.publish
  delete_refused name order q other found empty refused s message ttl id now =
      rw (str_eq_of_ne other, found, empty, refused, delete_queue)
        (
          refl,
          (close_if_empty q).0,
          rw (lookup-insert, eq_refl) refl,
          rw (close_lem q empty, Produce.publish) refl,
        )

  -- BindQueue of a new binding, when the log refuses the record: it returns the error, but the exchange
  -- keeps the binding, so that a second call fails with ErrBindingAlreadyExist. The log is as it was, and
  -- the second call changes nothing, so the binding is in the exchange and not in the log.
  pub bind_refused :
      (laws : IsWal wal) (name queue_name binding_key : String) (e : Exchange) (q : QueueRuntime)
      → validate_binding_key binding_key ≡ none
      → lookup name b.exchanges ≡ some e
      → lookup queue_name b.queues ≡ some q
      → (bind e binding_key queue_name).1 ≡ none
      → (wal.append b.shared.wal (queue_binded_record name queue_name binding_key)).1 ≡ false
      → let o = bind_queue b name queue_name binding_key in
        (o.1 ≡ some err_wal_append)
        × (bind_queue o.0 name queue_name binding_key ≡ (o.0, some err_binding_already_exist))
        × (laws.log o.0.shared.wal ≡ laws.log b.shared.wal)
  unfolding bind_queue rebind log_then
  bind_refused laws name queue_name binding_key e q valid found known new refused =
      let e' = (bind e binding_key queue_name).0 in
      let r = queue_binded_record name queue_name binding_key in
      let c = with_log (put_exchange b name e') (wal.append b.shared.wal r).0 in
      let changed : bind e binding_key queue_name ≡ (e', none) = ap (λ err. (e', err)) new in
      let first : bind_queue b name queue_name binding_key ≡ (c, some err_wal_append) =
        rw (valid, found, known, changed, refused, bind_queue) refl in
      let second : bind_queue c name queue_name binding_key ≡ (c, some err_binding_already_exist) =
        rw (valid, lookup-insert, eq_refl, known, bind_twice binding_key queue_name e, bind_queue)
          refl in
      (
        ap (λ (o : Outcome W). o.1) first,
        rw first second,
        rw first (laws.append_failed b.shared.wal r refused),
      )
