-- ===== src/Engine/Broker/Rebound/Bound.antt =====
-- BindQueue and UnbindQueue keep the broker sound, unless the log refuses a record.
use dsend.Base.{
  String, Bool, true, not, Option, none, some, [], ◌∷◌, ◌++◌, ◌≡◌, refl, ap, arith, inl, inr,
  lookup, insert, has, has-insert, has-some, if_cases, Option-cases, All, All-append,
  All-delete_func, delete_func,
}
use dsend.Model.{Binding, Record, exchange_type_text, default_exchange_name}
use dsend.Storage.{Wal, IsWal, replay}
use dsend.Storage.Pending.{replay-append}
use dsend.Storage.Topology.{messages-binded, messages-unbinded}
use dsend.Exchange.{Exchange, BindingError, bind, unbind, check_binding_exists, has_binding}
use dsend.Engine.Broker.{Broker, put_exchange}
use dsend.Engine.Broker.Names.{validate_binding_key}
use dsend.Engine.Broker.Queues.{queue_unbinded_record}
use dsend.Engine.Broker.Exchanges.{queue_binded_record, rebind, bind_queue, unbind_queue}
use dsend.Engine.Broker.Agrees.{Agrees, binded-Agrees, unbinded-Agrees}
use dsend.Engine.Broker.Sound.{LeadsTo, Sound, log_then_cases}
use dsend.Engine.Broker.Rebound.{AreBound-insert, exchanges-Sound, same_test, SoundUnlessRefused}

module _ {W : Type 0} ⦃wal : Wal W⦄ (laws : IsWal wal) {b : Broker W} (t : Sound laws b) where
  module _ (name queue_name binding_key : String) (e : Exchange)
      (here : lookup name b.exchanges ≡ some e) where
    rebound-Sound :
        (r : Record) (e' : Exchange)
        → (replay (laws.log b.shared.wal ++ r ∷ [])).pending_messages
          ≡ (replay (laws.log b.shared.wal)).pending_messages
        → Agrees (replay (laws.log b.shared.wal ++ r ∷ [])) b.queues (insert name e' b.exchanges)
        → All (LeadsTo b.queues) e'.bindings
        → SoundUnlessRefused laws t (rebind b name r (e', none))
    unfolding rebind
    rebound-Sound r e' messages agrees all =
        log_then_cases (SoundUnlessRefused laws t) (put_exchange b name e') r (λ b'. (b', none))
          (λ done _.
            exchanges-Sound laws t r (rw (← replay-append) messages) (rw (← replay-append) agrees)
              done
              (ground
                (arith, has-insert name default_exchange_name e' b.exchanges, t.default_exchange))
              (AreBound-insert b.queues b.exchanges t.are_bound name e' all))
          (λ _ h. absurd (h refl))

    bound-Sound :
        has queue_name b.queues ≡ true
        → SoundUnlessRefused laws t (
            rebind b name
              (queue_binded_record name queue_name binding_key)
              (bind e binding_key queue_name))
    unfolding bind rebind
    bound-Sound known =
        let r = queue_binded_record name queue_name binding_key in
        if_cases
          (λ (o : Exchange × Option BindingError). SoundUnlessRefused laws t (rebind b name r o))
          (check_binding_exists e.bindings binding_key queue_name) (λ _ _. t)
          (λ _.
            rebound-Sound r _
              (rw replay-append (messages-binded (replay (laws.log b.shared.wal)) r refl))
              (rw replay-append (binded-Agrees t.agrees r e _ here refl refl))
              (All-append (LeadsTo b.queues) e.bindings _ (t.are_bound name e here) (known, tt)))

    unbound-Sound : SoundUnlessRefused laws t (
        rebind b name
          (queue_unbinded_record name queue_name binding_key)
          (unbind e binding_key queue_name))
    unfolding unbind rebind
    unbound-Sound =
        let r = queue_unbinded_record name queue_name binding_key in
        if_cases
          (λ (o : Exchange × Option BindingError). SoundUnlessRefused laws t (rebind b name r o))
          (not (has_binding e.bindings binding_key queue_name)) (λ _ _. t)
          (λ _.
            rebound-Sound r _
              (rw replay-append (messages-unbinded (replay (laws.log b.shared.wal)) r refl))
              (rw replay-append (
                unbinded-Agrees t.agrees r e _ here refl (
                  ap
                    (λ (del : Binding → Bool). record {
                      exchange_type = exchange_type_text e.type;
                      bindings = delete_func del e.bindings;
                    })
                    (same_test name queue_name binding_key))))
              (All-delete_func (LeadsTo b.queues) _ e.bindings (t.are_bound name e here)))

  -- BindQueue keeps the broker sound, unless the log refuses its record.
  pub bind_queue-Sound :
      (name queue_name binding_key : String)
      → SoundUnlessRefused laws t (bind_queue b name queue_name binding_key)
  unfolding bind_queue
  bind_queue-Sound name queue_name binding_key =
      elim (Option-cases (validate_binding_key binding_key)) [
        | inr (err, e) ↦ rw (e, bind_queue) (λ _. t)
        | inl valid ↦ elim (Option-cases (lookup name b.exchanges)) [
          | inl e ↦ rw (valid, e, bind_queue) (λ _. t)
          | inr (ex, here) ↦ elim (Option-cases (lookup queue_name b.queues)) [
            | inl e ↦ rw (valid, here, e, bind_queue) (λ _. t)
            | inr (q, known) ↦
                rw (valid, here, known, bind_queue)
                  (bound-Sound name queue_name binding_key ex here
                    (has-some queue_name b.queues known))
          ]
        ]
      ]

  -- UnbindQueue does too.
  pub unbind_queue-Sound :
      (name queue_name binding_key : String)
      → SoundUnlessRefused laws t (unbind_queue b name queue_name binding_key)
  unfolding unbind_queue
  unbind_queue-Sound name queue_name binding_key = elim (Option-cases (lookup name b.exchanges)) [
    | inl e ↦ rw (e, unbind_queue) (λ _. t)
    | inr (ex, here) ↦ elim (Option-cases (lookup queue_name b.queues)) [
      | inl e ↦ rw (here, e, unbind_queue) (λ _. t)
      | inr (q, known) ↦
          rw (here, known, unbind_queue) (unbound-Sound name queue_name binding_key ex here)
    ]
  ]
