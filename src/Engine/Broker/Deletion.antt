-- ===== src/Engine/Broker/Deletion.antt =====
-- DeleteQueue keeps the broker sound, unless the log refuses a record: after its loop over the exchanges
-- no binding leads to the queue.
pub mod Dropped
use mathlib.Core.List.{Permᴰ}
use mathlib.Core.Option.{some-injective}
use dsend.Base.{
  String, Bool, true, false, not, Option, none, some, List, [], ◌∷◌, ◌++◌, ◌≡◌, ◌≢◌, refl, sym, ap,
  subst, ◌∙◌, arith, inl, inr, keys, lookup, delete, has-insert, has-delete, has-some,
  lookup-insert, delete-insert, str_eq_of_ne, eq_iff, text_cases, if_cases, Option-cases, All,
  All-map, delete_func,
}
use dsend.Model.{Binding, exchange_type_text, default_queue_name, default_exchange_name}
use dsend.Storage.{Wal, IsWal, replay}
use dsend.Storage.Pending.{replay-append}
use dsend.Storage.Topology.{messages-deleted, messages-unbinded}
use dsend.Exchange.{Exchange, BindingError, unbind, is_unbound, has_binding}
use dsend.Engine.{err_wal_append}
use dsend.Engine.QueueRuntime.{QueueRuntime, close_if_empty}
use dsend.Engine.Broker.{Broker, Outcome, put_queue, put_exchange, with_log}
use dsend.Engine.Broker.Queues.{
  queue_deleted_record, queue_unbinded_record, queue_dropped, loop_ended, unbind_logged,
  unbind_round, unbind_everywhere, delete_closed, delete_queue,
}
use dsend.Engine.Broker.Agrees.{deleted-Agrees, unbinded-Agrees}
use dsend.Engine.Broker.Sound.{
  LeadsTo, Settled, Sound, Runtimes-log, Runtimes-delete, log_then_cases,
}
use dsend.Engine.Broker.Changes.{exchanges-Settled, same_pending}
use dsend.Engine.Broker.Rebound.{same_test, SoundUnlessRefused}
use dsend.Engine.Broker.Unbound.{
  listed, listed-Permᴰ, listed-keys, LeadsOr, unbound-All, unbound_left,
}

module _ {W : Type 0} ⦃wal : Wal W⦄ (laws : IsWal wal) (name : String) where
  -- The loop of DeleteQueue, with the exchanges that are still to come.
  pub record Deleting (left : List String) (b : Broker W) : Type 0 where
    pub settled : Settled laws b
    pub open settled use *
    pub partly :
        (x : String) (e : Exchange)
        → lookup x b.exchanges ≡ some e
        → All (LeadsOr name b.queues) e.bindings
    pub cleaned :
        (x : String) (e : Exchange)
        → lookup x b.exchanges ≡ some e
        → listed x left ≡ false
        → All (LeadsTo b.queues) e.bindings

  abbrev pub Goes : List String → Outcome W → Type 0
  Goes left o = o.1 ≢ some err_wal_append → Deleting left o.0 × (o.1 ≡ none)

  module _ {b : Broker W} (y : String) (rest : List String) (t : Deleting (y ∷ rest) b) where
    -- The exchange has nothing to change.
    passed :
        ((e : Exchange) → lookup y b.exchanges ≡ some e → All (LeadsTo b.queues) e.bindings)
        → Deleting rest b
    unfolding listed
    passed clean = record {
      settled = t.settled;
      partly = t.partly;
      cleaned = λ x e here gone. elim (text_cases y x) [
        | inl (_, p) ↦ clean e (rw p here)
        | inr (h, _) ↦ t.cleaned x e here (rw h gone)
      ];
    }

    -- The exchange loses the bindings of the queue.
    changed :
        (e : Exchange)
        → lookup y b.exchanges ≡ some e
        → (wal.append b.shared.wal (queue_unbinded_record y name "")).1 ≡ true
        → Deleting rest (
            with_log
              (put_exchange b y
                (record e { bindings = delete_func (is_unbound "" name) e.bindings }))
              (wal.append b.shared.wal (queue_unbinded_record y name "")).0)
    unfolding listed
    changed e here done =
        let r = queue_unbinded_record y name "" in
        let e' : Exchange = record e { bindings = delete_func (is_unbound "" name) e.bindings } in
        let left = unbound_left name b.queues e.bindings (t.partly y e here) in
        record {
          settled =
              exchanges-Settled laws t.settled r
                (messages-unbinded (replay (laws.log b.shared.wal)) r refl)
                (unbinded-Agrees t.agrees r e e' here refl (
                  ap
                    (λ (del : Binding → Bool). record {
                      exchange_type = exchange_type_text e.type;
                      bindings = delete_func del e.bindings;
                    })
                    (same_test y name "")))
                done
                (ground
                  (arith, has-insert y default_exchange_name e' b.exchanges, t.default_exchange));
          partly = λ x f found. elim (text_cases y x) [
            | inl (h, _) ↦
                subst (λ (g : Exchange). All (LeadsOr name b.queues) g.bindings)
                  (some-injective e' f (rw (lookup-insert, h) at found))
                  (All-map _ _ e'.bindings (λ _ k. inr k) left)
            | inr (h, _) ↦ t.partly x f (rw (lookup-insert, h) at found)
          ];
          cleaned = λ x f found gone. elim (text_cases y x) [
            | inl (h, _) ↦
                subst (λ (g : Exchange). All (LeadsTo b.queues) g.bindings)
                  (some-injective e' f (rw (lookup-insert, h) at found)) left
            | inr (h, _) ↦ t.cleaned x f (rw (lookup-insert, h) at found) (rw h gone)
          ];
        }

    unbind_logged-Goes :
        (e : Exchange)
        → lookup y b.exchanges ≡ some e
        → Goes rest (unbind_logged b y name (unbind e "" name))
    unfolding unbind unbind_logged
    unbind_logged-Goes e here =
        if_cases (λ (o : Exchange × Option BindingError). Goes rest (unbind_logged b y name o))
          (not (has_binding e.bindings "" name))
          (λ without _. (
            passed (λ f found.
                subst (λ (g : Exchange). All (LeadsTo b.queues) g.bindings)
                  (some-injective e f (sym here ∙ found))
                  (unbound-All name b.queues e.bindings (ground arith) (t.partly y e here))),
            refl,
          ))
          (λ _.
            let r = queue_unbinded_record y name "" in
            let e' : Exchange = record e {
              bindings = delete_func (is_unbound "" name) e.bindings;
            } in
            log_then_cases (Goes rest) (put_exchange b y e') r (λ b'. (b', none))
              (λ done _. (changed e here done, refl)) (λ _ h. absurd (h refl)))

    unbind_round-Goes : Goes rest (unbind_round b y name)
    unfolding unbind_round
    unbind_round-Goes = elim (Option-cases (lookup y b.exchanges)) [
      | inl e ↦ rw (e, unbind_round) (λ _. (passed (λ f found. cc (e, found)), refl))
      | inr (ex, here) ↦ rw (here, unbind_round) (unbind_logged-Goes ex here)
    ]

  pub unbind_everywhere-Goes :
      (names : List String) (b : Broker W)
      → Deleting names b
      → Goes [] (unbind_everywhere names b name)
  unfolding unbind_everywhere
  unbind_everywhere-Goes [] b t = λ _. (t, refl)
  unbind_everywhere-Goes (y ∷ rest) b t = elim (Option-cases (unbind_round b y name).1) [
    | inl e ↦
        let (t', _) = unbind_round-Goes y rest t (λ h. cc (e, h)) in
        rw (e, unbind_everywhere) (unbind_everywhere-Goes rest _ t')
    | inr (err, e) ↦
        rw (e, unbind_everywhere)
          (λ ne.
            let (_, none_left) = unbind_round-Goes y rest t (λ h. ne (sym e ∙ h)) in
            cc (e, none_left))
  ]
