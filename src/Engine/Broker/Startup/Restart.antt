-- ===== src/Engine/Broker/Startup/Restart.antt =====
-- A restart of a broker from its log.
use mathlib.Core.List.{Nodup}
use mathlib.Core.List.Perm
use mathlib.Core.Option
use mathlib.Core.Option.{some-injective}
use dsend.Base.{
  ◌⊎◌, ◌<◌, pos_part, String, true, none, some, List, [], ◌≡◌, ◌≢◌, refl, sym, ap, subst, ◌∙◌,
  arith, inl, inr, Map, lookup, insert, has, has-some, has-none, none_of_has, lookup-insert,
  str_eq_of_ne, text_cases, Option-cases, All, All-map,
}
use dsend.Model.{
  Message, ExchangeType, exchange_type_text, direct_exchange, fan_out_exchange, topic_exchange,
  default_queue_name, default_exchange_name,
}
use dsend.Storage.{Wal, IsWal, ExchangeState, RecoveredState, replay, pending, pending_of}
use dsend.Storage.Durable.{ids}
use dsend.Storage.Topology.{messages-binded}
use dsend.Exchange.{Exchange, bind, check_binding_exists, new_exchange_factory}
use dsend.Engine.{Config, Shared, err_wal_append}
use dsend.Engine.QueueRuntime.{QueueRuntime}
use dsend.Engine.QueueRuntime.Sound as Runtime
use dsend.Engine.QueueRuntime.Recovery.{restarted-Sound}
use dsend.Engine.Broker.{Broker, Outcome, put_exchange, new_runtime, new_in_memory_broker}
use dsend.Engine.Broker.Names.{validate_exchange_type, validate_binding_key}
use dsend.Engine.Broker.Exchanges.{bind_queue, rebind, queue_binded_record}
use dsend.Engine.Broker.Agrees.{state_of}
use dsend.Engine.Broker.Sound.{LeadsTo, Sound, Runtimes, log_then_cases}
use dsend.Engine.Broker.Changes.{same_pending, new_runtime-Sound, name-new_runtime}
use dsend.Engine.Broker.Rebound.Bound.{bind_queue-Sound}
use dsend.Engine.Broker.Restorable.{AreRestorable}
use dsend.Engine.Broker.Startup.{
  restore_exchanges, with_queues, bind_default, forgive_bound, new_broker,
}
use dsend.Engine.Broker.Startup.Queues.{has-start, start_runtime}
use dsend.Engine.Broker.Startup.Restoring.{Restoring, Restoring-Sound, fresh_default}
use dsend.Engine.Broker.Startup.Loops.{IsBuildable}
use dsend.Engine.Broker.Startup.Recovered.{Loads, Recovered, bound_default, refused_cases}
use dsend.Engine.Broker.Startup.Exchanges.{AllBuilt, restore_exchanges_lem}

validate-type_text :
    (type : ExchangeType) → validate_exchange_type (exchange_type_text type) ≡ some type
unfolding validate_exchange_type
validate-type_text direct_exchange = refl
validate-type_text fan_out_exchange = refl
validate-type_text topic_exchange = refl

default_key : validate_binding_key default_queue_name ≡ none
unfolding validate_binding_key
default_key = refl

module _ {W : Type 0} ⦃wal : Wal W⦄ (laws : IsWal wal) (b : Broker W) (t : Sound laws b)
    (r : AreRestorable b.exchanges) (cfg : Config) (room : 0 < pos_part cfg.queue_size)
    (shared : Shared W) (same_log : laws.log shared.wal ≡ laws.log b.shared.wal)
    (state : RecoveredState) (loads : Loads (laws.log b.shared.wal) state) where
  abbrev begin : Broker W
  begin = with_queues cfg shared state.pending_messages

  -- The queues are those of the broker.
  begin_queues : (n : String) → has n begin.queues ≡ has n b.queues
  unfolding with_queues new_in_memory_broker
  begin_queues n =
      has-start cfg n state.pending_messages loads.messages_map
      ∙ elim (text_cases default_queue_name n) [
        | inl (h, p) ↦
            rw h (ground arith ∙ sym (subst (λ k. has k b.queues ≡ true) p t.default_queue))
        | inr (h, k) ↦
            rw h (ground (arith, loads.messages n, t.agrees.queues_logged n (λ p. k (sym p))))
      ]

  -- No pending message of a queue has the ID of another.
  distinct : (n : String) → has n b.queues ≡ true → Nodup (ids (pending (laws.log b.shared.wal) n))
  distinct n known = elim (Option-cases (lookup n b.queues)) [
    | inl e ↦ cc (known, has-none n b.queues e)
    | inr (q, e) ↦
        let (named, sound) = t.runtimes n q e in
        rw named at (Perm.nodup (Perm.map _ (Perm.symm sound.durable.same)) sound.durable.distinct)
  ]

  same_messages : (n : String) → pending_of state n ≡ pending (laws.log b.shared.wal) n
  unfolding pending pending_of
  same_messages n = rw (loads.messages n, pending_of, pending) refl

  begin-Runtimes : Runtimes laws begin.queues shared
  unfolding with_queues new_in_memory_broker
  begin-Runtimes n q e =
      let ms = pending (laws.log shared.wal) n in
      let known = sym (begin_queues n) ∙ has-some n begin.queues e in
      let same : new_runtime cfg n ms ≡ q = sym (
        start_runtime cfg n state q loads.messages_map e
        ∙ ap (new_runtime cfg n) (same_messages n ∙ ap (λ l. pending l n) (sym same_log))) in
      let sound : Runtime.Sound laws (new_runtime cfg n ms, shared) =
        new_runtime-Sound laws cfg n ms shared
          (restarted-Sound laws n shared cfg room (rw same_log (distinct n known))) in
      rw (← same) (name-new_runtime cfg n ms (omega (arith, room)), sound)

  no_bindings : All (LeadsTo begin.queues) fresh_default.bindings
  unfolding new_exchange_factory
  no_bindings = tt

  begin-Restoring :
      Restoring laws (laws.log b.shared.wal) begin.queues state.pending_exchanges begin
  unfolding with_queues new_in_memory_broker lookup
  begin-Restoring = record {
    room = room;
    same_queues = refl;
    runtimes = begin-Runtimes;
    kept_messages = λ n. rw same_log refl;
    queues_logged = λ n ne. rw same_log (t.agrees.queues_logged n ne ∙ sym (begin_queues n));
    default_queue = begin_queues default_queue_name ∙ t.default_queue;
    default_unlogged = rw same_log t.agrees.default_unlogged;
    default_exchange = refl;
    restored = λ x ne h.
        rw
          (
            same_log,
            ← loads.exchanges x,
            none_of_has x state.pending_exchanges h,
            str_eq_of_ne (λ p. ne (sym p)),
          )
          refl;
    coming = λ x h. elim (text_cases default_exchange_name x) [
      | inl (_, p) ↦ cc (
        h,
        has-none default_exchange_name state.pending_exchanges
            (loads.exchanges default_exchange_name ∙ t.agrees.default_unlogged),
        ap (λ k. has k state.pending_exchanges) p,
      )
      | inr (k, _) ↦ rw k refl
    ];
    are_bound = λ x e found. elim (text_cases default_exchange_name x) [
      | inl (k, _) ↦
          subst (λ (ex : Exchange). All (LeadsTo begin.queues) ex.bindings)
            (some-injective fresh_default e (rw k at found)) no_bindings
      | inr (k, _) ↦ cc (rw k at found)
    ];
  }

  -- Each exchange of the log is one of the broker's, and can be built again.
  buildable :
      (x : String) (s : ExchangeState)
      → lookup x state.pending_exchanges ≡ some s
      → IsBuildable begin.queues x s
  buildable x s e = elim (text_cases x default_exchange_name) [
    | inl (_, p) ↦ cc (rw (loads.exchanges x, p) at e, t.agrees.default_unlogged)
    | inr (_, named) ↦ elim (Option-cases (lookup x b.exchanges)) [
      | inl f ↦ cc (rw (loads.exchanges x, t.agrees.exchanges_logged x named, f) at e)
      | inr (ex, f) ↦
          let same : state_of ex ≡ s =
            some-injective (state_of ex) s
              (rw (loads.exchanges x, t.agrees.exchanges_logged x named, f) at e) in
          let ok = r x ex f in
          rw (← same) (record {
            named = named;
            accepted = ok.named named;
            type = ex.type;
            typed = validate-type_text ex.type;
            same_type = refl;
            keyed = ok.keyed;
            fresh = ok.fresh;
            leads =
                All-map _ _ ex.bindings (λ binding h. begin_queues binding.queue_name ∙ h)
                  (t.are_bound x ex f);
          })
    ]
  ]

  -- BindQueue of the default queue, as NewBroker ends.
  default_cases {ℓ} :
      (P : Outcome W → Type ℓ) (c : Broker W)
      → Restoring laws (laws.log b.shared.wal) begin.queues [] c
      → ((c' : Broker W)
          → c'.queues ≡ c.queues
          → ((n : String) → pending (laws.log c'.shared.wal) n ≡ pending (laws.log c.shared.wal) n)
          → c'.exchanges ≡ insert default_exchange_name bound_default c.exchanges
          → P (c', none))
      → ((c' : Broker W) → P (c', some err_wal_append))
      → P (bind_queue c default_exchange_name default_queue_name default_queue_name)
  unfolding bind_queue bind check_binding_exists rebind new_exchange_factory
  default_cases P c k go refused = elim (Option-cases (lookup default_queue_name c.queues)) [
    | inl e ↦ cc (k.default_queue, has-none default_queue_name c.queues e)
    | inr (q, e) ↦
        let logged =
          queue_binded_record default_exchange_name default_queue_name default_queue_name in
        rw (default_key, k.default_exchange, e, bind_queue)
          (log_then_cases P (put_exchange c default_exchange_name bound_default) logged
            (λ c'. (c', none))
            (λ done.
              go _ refl
                (λ n. rw (laws.append_ok c.shared.wal logged done) (
                  same_pending laws c logged n (
                    ap (λ (m : Map (List Message)). lookup n m)
                      (messages-binded (replay (laws.log c.shared.wal)) logged refl))))
                refl)
            (λ _. refused _))
  ]

  -- The exchanges after the loop are those of the broker.
  same_exchanges :
      (c : Broker W)
      → AllBuilt laws (laws.log b.shared.wal) begin.queues state.pending_exchanges begin (c, none)
      → (x : String) → x ≢ default_exchange_name
      → Option.map state_of (lookup x c.exchanges) ≡ Option.map state_of (lookup x b.exchanges)
  unfolding with_queues new_in_memory_broker lookup
  same_exchanges c loop x named = elim (Option-cases (lookup x state.pending_exchanges)) [
    | inl e ↦
        rw (loop.apart x (has-none x state.pending_exchanges e), str_eq_of_ne (λ p. named (sym p)))
          (sym e ∙ loads.exchanges x ∙ t.agrees.exchanges_logged x named)
    | inr (s, e) ↦ loop.built x s e ∙ sym e ∙ loads.exchanges x ∙ t.agrees.exchanges_logged x named
  ]

  -- From the end of the loop.
  ended :
      (o : Outcome W)
      → (o.1 ≢ some err_wal_append
          → AllBuilt laws (laws.log b.shared.wal) begin.queues state.pending_exchanges begin o)
      → (bind_default o).1 ≢ some err_wal_append
      → Recovered laws b (bind_default o)
  unfolding bind_default
  ended (c, some err) built = λ ne. cc ((built ne).fine)
  ended (c, none) built =
      let loop = built (λ h. cc h) in
      default_cases
        (λ o.
          (o.1 ≢ some err_wal_append → Sound laws o.0)
          → forgive_bound o.1 ≢ some err_wal_append
          → Recovered laws b (o.0, forgive_bound o.1))
        c loop.still
        (λ c' queues kept exchanges sound ne. record {
          fine = refl;
          sound = sound (λ h. cc h);
          queues = λ n.
              rw queues
                (ap (λ (m : Map QueueRuntime). has n m) loop.still.same_queues ∙ begin_queues n);
          messages = λ n q q' e e'.
              let old = (t.runtimes n q e) in
              let new = ((sound (λ h. cc h)).runtimes n q' e') in
              let same = kept n ∙ loop.still.kept_messages n in
              Perm.trans (Perm.symm (rw new.0 at new.1.durable.same))
                (rw same (rw old.0 at old.1.durable.same));
          exchanges = λ x named.
              rw (exchanges, lookup-insert, str_eq_of_ne (λ p. named (sym p)))
                (same_exchanges c loop x named);
          default_only = rw (exchanges, lookup-insert) refl;
        })
        (λ c' sound ne. absurd (ne refl))
        (bind_queue-Sound laws (Restoring-Sound laws _ _ loop.still) default_exchange_name
          default_queue_name default_queue_name)

  -- A broker that is sound, whose exchanges can be built again, and what Load returns for its log:
  -- with a positive queue size NewBroker returns a broker. Either the log has refused a record, or no
  -- error is returned and the new broker is sound, has the queues of the old one, each with the
  -- messages that were queued or in flight, in some order and no others, has the old exchanges with
  -- their types and bindings in their order, and a default exchange on which only the default queue is
  -- bound.
  pub restart :
      (o : Outcome W) × (new_broker cfg shared (some state) ≡ some o)
      × ((o.1 ≡ some err_wal_append) ⊎ Recovered laws b o)
  unfolding new_broker
  restart =
      let o = bind_default (restore_exchanges state.pending_exchanges begin) in
      let good = ended _ (
        restore_exchanges_lem laws (laws.log b.shared.wal) begin.queues state.pending_exchanges
          begin loads.exchanges_map buildable begin-Restoring) in
      (o, refl, elim (refused_cases o.1) [ inl e ↦ inl e | inr ne ↦ inr (good ne) ])
