-- ===== src/Engine/Broker/Startup/Loops.antt =====
-- The loops of NewBroker over the exchanges and their bindings, from a log whose exchanges can be built
-- again: either the log refuses a record, or every exchange is there with its bindings.
use text.Mathlib.TextPositions.{eq_refl}
use dsend.Base.{
  String, false, none, some, List, [], ◌∷◌, ◌++◌, ◌≡◌, ◌≢◌, refl, sym, ap, ◌∙◌, arith, inl, inr,
  Map, Absent, lookup, insert, has, has-none, lookup-insert, Absent-lookup, str_eq_of_ne, eq_iff,
  text_cases, Option-cases, All, All-append, append_assoc, append-nil,
}
use dsend.Model.{Binding, Record, ExchangeType, exchange_type_text, default_exchange_name}
use dsend.Storage.{Wal, IsWal, ExchangeState, replay}
use dsend.Storage.Topology.{
  messages-binded, exchanges-binded, messages-exchange_created, exchanges-exchange_created,
}
use dsend.Exchange.{Exchange, new_exchange_factory, bind, check_binding_exists}
use dsend.Exchange.Fresh.{Fresh}
use dsend.Engine.{err_wal_append}
use dsend.Engine.QueueRuntime.{QueueRuntime}
use dsend.Engine.Broker.{Broker, Outcome, put_exchange}
use dsend.Engine.Broker.Names.{validate_binding_key, validate_exchange_name, validate_exchange_type}
use dsend.Engine.Broker.Exchanges.{
  queue_binded_record, exchange_created_record, rebind, bind_queue, create_exchange,
}
use dsend.Engine.Broker.Sound.{LeadsTo, log_then_cases}
use dsend.Engine.Broker.Startup.{restore_bindings, restore_exchange}
use dsend.Engine.Broker.Startup.Restoring.{Restoring, one_more}

-- an exchange with more bindings
abbrev extended : Exchange → List Binding → Exchange
extended e bs = record e { bindings = e.bindings ++ bs }

-- What makes an exchange of the log one that CreateExchange and BindQueue build again.
pub record IsBuildable (queues : Map QueueRuntime) (x : String) (state : ExchangeState)
    : Type 0 where
  pub named : x ≢ default_exchange_name
  pub accepted : validate_exchange_name x ≡ none
  pub type : ExchangeType
  pub typed : validate_exchange_type state.exchange_type ≡ some type
  pub same_type : exchange_type_text type ≡ state.exchange_type
  pub keyed : All (λ (b : Binding). validate_binding_key b.binding_key ≡ none) state.bindings
  pub fresh : Fresh [] state.bindings
  pub leads : All (LeadsTo queues) state.bindings

bind_new :
    (e : Exchange) (binding : Binding)
    → check_binding_exists e.bindings binding.binding_key binding.queue_name ≡ false
    → bind e binding.binding_key binding.queue_name ≡ (extended e (binding ∷ []), none)
unfolding bind
bind_new e binding new = rw new refl

module _ {W : Type 0} ⦃wal : Wal W⦄ (laws : IsWal wal) (log : List Record)
    (queues : Map QueueRuntime) where
  -- BindQueue of a new binding of an exchange that is not to come.
  bind_cases {ℓ} :
      (P : Outcome W → Type ℓ) (left : Map ExchangeState) {b : Broker W} (x : String) (e : Exchange)
      (binding : Binding)
      → Restoring laws log queues left b
      → x ≢ default_exchange_name
      → has x left ≡ false
      → lookup x b.exchanges ≡ some e
      → validate_binding_key binding.binding_key ≡ none
      → check_binding_exists e.bindings binding.binding_key binding.queue_name ≡ false
      → LeadsTo queues binding
      → ((b' : Broker W)
          → Restoring laws log queues left b'
          → b'.exchanges ≡ insert x (extended e (binding ∷ [])) b.exchanges
          → P (b', none))
      → ((b' : Broker W) → P (b', some err_wal_append))
      → P (bind_queue b x binding.queue_name binding.binding_key)
  unfolding bind_queue rebind
  bind_cases P left {b} x e binding t named gone here valid new leads go refused =
      elim (Option-cases (lookup binding.queue_name b.queues)) [
        | inl unknown ↦ cc (
          leads,
          has-none binding.queue_name b.queues unknown,
          ap (λ (m : Map QueueRuntime). has binding.queue_name m) t.same_queues,
        )
        | inr (q, known) ↦
            let r = queue_binded_record x binding.queue_name binding.binding_key in
            let e' = extended e (binding ∷ []) in
            rw (valid, here, known, bind_queue, bind_new e binding new)
              (log_then_cases P (put_exchange b x e') r (λ b'. (b', none))
                (λ done.
                  go _
                    (one_more laws log queues left left t r x e' named gone (λ _ _. refl)
                      (messages-binded (replay (laws.log b.shared.wal)) r refl)
                      (λ y.
                        exchanges-binded (replay (laws.log b.shared.wal)) r refl y
                        ∙ elim (text_cases x y) [
                          | inl (h, p) ↦ rw (h, ← p, t.restored x named gone, here) refl
                          | inr (h, _) ↦ rw h refl
                        ])
                      (All-append (LeadsTo b.queues) e.bindings _ (t.are_bound x e here)
                        (rw t.same_queues leads, tt))
                      done)
                    refl)
                (λ _. refused _))
      ]

  -- What a loop comes to, unless the log refuses a record.
  pub record Bound (left : Map ExchangeState) (b : Broker W) (x : String) (e : Exchange)
      (o : Outcome W) : Type 0 where
    pub fine : o.1 ≡ none
    pub still : Restoring laws log queues left o.0
    pub built : lookup x o.0.exchanges ≡ some e
    pub apart : (y : String) → y ≢ x → lookup y o.0.exchanges ≡ lookup y b.exchanges

  abbrev pub BoundUnlessRefused :
      Map ExchangeState → Broker W → String → Exchange → Outcome W → Type 0
  BoundUnlessRefused left b x e o = o.1 ≢ some err_wal_append → Bound left b x e o

  -- the loop goes on
  abbrev go_on : String → List Binding → Outcome W → Outcome W
  go_on x bs o = elim o.1 [ some err ↦ (o.0, some err) | none ↦ restore_bindings x bs o.0 ]

  restore_bindings_lem :
      (left : Map ExchangeState) (x : String) (bs : List Binding) (e : Exchange) (b : Broker W)
      → Restoring laws log queues left b
      → x ≢ default_exchange_name
      → has x left ≡ false
      → lookup x b.exchanges ≡ some e
      → All (λ (c : Binding). validate_binding_key c.binding_key ≡ none) bs
      → Fresh e.bindings bs
      → All (LeadsTo queues) bs
      → BoundUnlessRefused left b x (extended e bs) (restore_bindings x bs b)
  unfolding restore_bindings
  restore_bindings_lem left x [] e b t named gone here valid new leads = λ ne. record {
    fine = refl;
    still = t;
    built = here ∙ ap (λ l. some (record e { bindings = l })) (sym (append-nil e.bindings));
    apart = λ y _. refl;
  }
  restore_bindings_lem left x (binding ∷ bs) e b t named gone here valid new leads =
      bind_cases (λ o. BoundUnlessRefused left b x (extended e (binding ∷ bs)) (go_on x bs o)) left
        x e binding t named gone here valid.0 new.0 leads.0
        (λ b' t' same ne.
          let rest =
            restore_bindings_lem left x bs (extended e (binding ∷ [])) b' t' named gone
              (rw (same, lookup-insert, eq_refl) refl) valid.1 new.1 leads.1 ne in
          record {
            fine = rest.fine;
            still = rest.still;
            built =
                rest.built
                ∙ ap (λ l. some (record e { bindings = l }))
                    (append_assoc e.bindings (binding ∷ []) bs);
            apart = λ y k.
                rest.apart y k ∙ rw (same, lookup-insert, str_eq_of_ne (λ p. k (sym p))) refl;
          })
        (λ b' ne. absurd (ne refl))

  -- One exchange: it is built, with its bindings.
  module _ (x : String) (state : ExchangeState) (rest : Map ExchangeState) (absent : Absent x rest)
      (ready : IsBuildable queues x state) where
    unfoldable pub built_exchange : Exchange
    built_exchange = record (new_exchange_factory x ready.type) { bindings = state.bindings }

    -- the loop over the bindings follows
    abbrev then_bindings : Outcome W → Outcome W
    then_bindings o = elim o.1 [
      | some err ↦ (o.0, some err)
      | none ↦ restore_bindings x state.bindings o.0
    ]

    create_cases {ℓ} :
        (P : Outcome W → Type ℓ) (b : Broker W)
        → Restoring laws log queues ((x, state) ∷ rest) b
        → ((b' : Broker W)
            → Restoring laws log queues rest b'
            → b'.exchanges ≡ insert x (new_exchange_factory x ready.type) b.exchanges
            → P (b', none))
        → ((b' : Broker W) → P (b', some err_wal_append))
        → P (create_exchange b x state.exchange_type)
    unfolding create_exchange new_exchange_factory lookup
    create_cases P b t go refused =
        let r = exchange_created_record x state.exchange_type in
        let e = new_exchange_factory x ready.type in
        let empty : lookup x b.exchanges ≡ none = t.coming x (ground (arith, eq_iff x x)) in
        rw (ready.accepted, ready.typed, empty, create_exchange)
          (log_then_cases P b r (λ b'. (put_exchange b' x e, none))
            (λ done.
              go _
                (one_more laws log queues ((x, state) ∷ rest) rest t r x e ready.named
                  (has-none x rest (Absent-lookup x rest absent))
                  (λ y k. ground (arith, eq_iff x y))
                  (messages-exchange_created (replay (laws.log b.shared.wal)) r refl)
                  (λ y.
                    exchanges-exchange_created (replay (laws.log b.shared.wal)) r refl y
                    ∙ rw ready.same_type refl)
                  tt done)
                refl)
            (λ _. refused _))

    pub restore_exchange_lem :
        (b : Broker W)
        → Restoring laws log queues ((x, state) ∷ rest) b
        → BoundUnlessRefused rest b x built_exchange (restore_exchange x state b)
    unfolding restore_exchange built_exchange new_exchange_factory
    restore_exchange_lem b t =
        create_cases (λ o. BoundUnlessRefused rest b x built_exchange (then_bindings o)) b t
          (λ b' t' same ne.
            let loop =
              restore_bindings_lem rest x state.bindings (new_exchange_factory x ready.type) b' t'
                ready.named (has-none x rest (Absent-lookup x rest absent))
                (rw (same, lookup-insert, eq_refl) refl) ready.keyed ready.fresh ready.leads ne in
            record {
              fine = loop.fine;
              still = loop.still;
              built = loop.built;
              apart = λ y k.
                  loop.apart y k ∙ rw (same, lookup-insert, str_eq_of_ne (λ p. k (sym p))) refl;
            })
          (λ _ ne. absurd (ne refl))
