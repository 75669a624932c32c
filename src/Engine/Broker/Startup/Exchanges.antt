-- ===== src/Engine/Broker/Startup/Exchanges.antt =====
-- The loop of NewBroker over the exchanges.
use mathlib.Core.Option
use mathlib.Core.Option.{some-injective}
use dsend.Base.{
  String, false, none, some, List, [], ◌∷◌, ◌≡◌, ◌≢◌, refl, sym, ap, ◌∙◌, arith, inl, inr, Map,
  IsMap, lookup, has, has-none, Absent-lookup, eq_iff, text_cases, Option-cases,
}
use dsend.Model.{Record}
use dsend.Storage.{Wal, IsWal, ExchangeState}
use dsend.Exchange.{new_exchange_factory}
use dsend.Engine.{err_wal_append}
use dsend.Engine.QueueRuntime.{QueueRuntime}
use dsend.Engine.Broker.{Broker, Outcome}
use dsend.Engine.Broker.Agrees.{state_of}
use dsend.Engine.Broker.Startup.{restore_exchange, restore_exchanges}
use dsend.Engine.Broker.Startup.Restoring.{Restoring}
use dsend.Engine.Broker.Startup.Loops.{IsBuildable, restore_exchange_lem, built_exchange}

module _ {W : Type 0} ⦃wal : Wal W⦄ (laws : IsWal wal) (log : List Record)
    (queues : Map QueueRuntime) where
  pub record AllBuilt (left : Map ExchangeState) (b : Broker W) (o : Outcome W) : Type 0 where
    pub fine : o.1 ≡ none
    pub still : Restoring laws log queues [] o.0
    pub built :
        (x : String) (state : ExchangeState)
        → lookup x left ≡ some state
        → Option.map state_of (lookup x o.0.exchanges) ≡ some state
    pub apart : (y : String) → has y left ≡ false → lookup y o.0.exchanges ≡ lookup y b.exchanges

  abbrev exchanges_go_on : Map ExchangeState → Outcome W → Outcome W
  exchanges_go_on rest o = elim o.1 [
    | some err ↦ (o.0, some err)
    | none ↦ restore_exchanges rest o.0
  ]

  pub restore_exchanges_lem :
      (left : Map ExchangeState) (b : Broker W)
      → IsMap left
      → ((x : String) (state : ExchangeState)
          → lookup x left ≡ some state
          → IsBuildable queues x state)
      → Restoring laws log queues left b
      → (restore_exchanges left b).1 ≢ some err_wal_append
      → AllBuilt left b (restore_exchanges left b)
  unfolding restore_exchanges lookup built_exchange new_exchange_factory
  restore_exchanges_lem [] b m ready t =
      λ ne. record { fine = refl; still = t; built = λ x state e. cc; apart = λ y _. refl }
  restore_exchanges_lem ((x, state) ∷ rest) b m ready t =
      elim (Option-cases (restore_exchange x state b).1) [
        | inr (err, e) ↦
            rw (e, restore_exchanges)
              (λ ne.
                let one =
                  restore_exchange_lem laws log queues x state rest m.0 here b t
                    (λ h. ne (sym e ∙ h)) in
                cc (e, one.fine))
        | inl e ↦
            let one =
              restore_exchange_lem laws log queues x state rest m.0 here b t (λ h. cc (e, h)) in
            rw (e, restore_exchanges)
              (λ ne.
                let loop = restore_exchanges_lem rest _ m.1 later one.still ne in
                record {
                  fine = loop.fine;
                  still = loop.still;
                  built = λ y s f. elim (text_cases x y) [
                    | inl (h, p) ↦ rw (← p) (
                        ap (Option.map state_of)
                          (loop.apart x (has-none x rest (Absent-lookup x rest m.0)) ∙ one.built)
                        ∙ ap some state-built
                        ∙ rw h at f)
                    | inr (h, _) ↦ loop.built y s (rw h at f)
                  ];
                  apart = λ y k. elim (text_cases x y) [
                    | inl (h, p) ↦ cc (rw (h, has) at k)
                    | inr (h, p) ↦ loop.apart y (rw (h, has) at k) ∙ one.apart y (λ q. p (sym q))
                  ];
                })
      ]
    where
      here : IsBuildable queues x state
      here = ready x state (ground (arith, eq_iff x x))

      later : (y : String) (s : ExchangeState) → lookup y rest ≡ some s → IsBuildable queues y s
      later y s e = ready y s (elim (text_cases x y) [
        | inl (h, p) ↦ cc (Absent-lookup x rest m.0, rw (← p) at e)
        | inr (h, _) ↦ rw h e
      ])

      state-built : state_of (built_exchange laws log queues x state rest m.0 here) ≡ state
      state-built =
          ap (λ (type : String). record { exchange_type = type; bindings = state.bindings })
            here.same_type
