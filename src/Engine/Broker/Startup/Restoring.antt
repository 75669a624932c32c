-- ===== src/Engine/Broker/Startup/Restoring.antt =====
-- The loops of NewBroker over the exchanges: what holds after each record, while some exchanges of the
-- log are still to come.
use mathlib.Core.Option
use mathlib.Core.Option.{some-injective}
use dsend.Base.{
  ◌<◌, pos_part, String, true, false, none, some, List, [], ◌≡◌, ◌≢◌, refl, sym, ap, ◌∙◌, inl, inr,
  Map, lookup, insert, has, has-some, lookup-insert, str_eq, str_eq_of_ne, text_cases, All,
  if◌then◌else◌,
}
use dsend.Model.{Message, Record, default_queue_name, default_exchange_name, direct_exchange}
use dsend.Storage.{Wal, IsWal, ExchangeState, replay, pending, apply_record}
use dsend.Storage.Pending.{replay-append}
use dsend.Exchange.{Exchange, new_exchange_factory}
use dsend.Engine.QueueRuntime.{QueueRuntime}
use dsend.Engine.Broker.{Broker, with_log}
use dsend.Engine.Broker.Agrees.{state_of}
use dsend.Engine.Broker.Sound.{LeadsTo, AreBound, Runtimes, Runtimes-log, Sound}
use dsend.Engine.Broker.Changes.{same_pending}
use dsend.Engine.Broker.Rebound.{AreBound-insert}

-- the default exchange, as every start makes it
abbrev pub fresh_default : Exchange
fresh_default = new_exchange_factory default_exchange_name direct_exchange

module _ {W : Type 0} ⦃wal : Wal W⦄ (laws : IsWal wal) (log : List Record)
    (queues : Map QueueRuntime) where
  -- `left` are the exchanges to come, `log` is the log and `queues` are the queues at the start.
  pub record Restoring (left : Map ExchangeState) (b : Broker W) : Type 0 where
    pub room : 0 < pos_part b.cfg.queue_size
    pub same_queues : b.queues ≡ queues
    pub runtimes : Runtimes laws b.queues b.shared
    pub kept_messages : (n : String) → pending (laws.log b.shared.wal) n ≡ pending log n
    pub queues_logged :
        (n : String)
        → n ≢ default_queue_name
        → has n (replay (laws.log b.shared.wal)).pending_messages ≡ has n b.queues
    pub default_queue : has default_queue_name b.queues ≡ true
    pub default_unlogged :
        lookup default_exchange_name (replay (laws.log b.shared.wal)).pending_exchanges ≡ none
    pub default_exchange : lookup default_exchange_name b.exchanges ≡ some fresh_default
    pub restored :
        (x : String)
        → x ≢ default_exchange_name
        → has x left ≡ false
        → lookup x (replay (laws.log b.shared.wal)).pending_exchanges
          ≡ Option.map state_of (lookup x b.exchanges)
    pub coming : (x : String) → has x left ≡ true → lookup x b.exchanges ≡ none
    pub are_bound : AreBound b.queues b.exchanges

  -- When none is to come, the broker is sound.
  pub Restoring-Sound : {b : Broker W} → Restoring [] b → Sound laws b
  unfolding lookup
  Restoring-Sound {b} t = record {
    settled = record {
      room = t.room;
      runtimes = t.runtimes;
      agrees = record {
        queues_logged = t.queues_logged;
        exchanges_logged = λ x ne. t.restored x ne refl;
        default_unlogged = t.default_unlogged;
      };
      default_queue = t.default_queue;
      default_exchange = has-some default_exchange_name b.exchanges t.default_exchange;
    };
    are_bound = t.are_bound;
  }

  -- One record more, about one exchange that is no longer to come.
  module _ (left left' : Map ExchangeState) {b : Broker W} (t : Restoring left b) (r : Record)
      (x : String) (e : Exchange) (named : x ≢ default_exchange_name) (gone : has x left' ≡ false)
      (others : (y : String) → y ≢ x → has y left' ≡ has y left) where
    pub one_more :
        (apply_record (replay (laws.log b.shared.wal)) r).pending_messages
          ≡ (replay (laws.log b.shared.wal)).pending_messages
        → ((y : String)
            → lookup y (apply_record (replay (laws.log b.shared.wal)) r).pending_exchanges ≡ (
                if str_eq x y
                then some (state_of e)
                else lookup y (replay (laws.log b.shared.wal)).pending_exchanges))
        → All (LeadsTo b.queues) e.bindings
        → (wal.append b.shared.wal r).1 ≡ true
        → Restoring left' (record (with_log b (wal.append b.shared.wal r).0) {
          exchanges = insert x e b.exchanges;
        })
    one_more messages exchanges all done =
        let logged = laws.append_ok b.shared.wal r done in
        record {
          room = t.room;
          same_queues = t.same_queues;
          runtimes = Runtimes-log laws b.queues t.runtimes (λ n.
              rw logged
                (same_pending laws b r n (ap (λ (m : Map (List Message)). lookup n m) messages)));
          kept_messages = λ n. rw logged (
              same_pending laws b r n (ap (λ (m : Map (List Message)). lookup n m) messages)
              ∙ t.kept_messages n);
          queues_logged = λ n ne. rw (logged, replay-append, messages) (t.queues_logged n ne);
          default_queue = t.default_queue;
          default_unlogged =
              rw (logged, replay-append)
                (exchanges default_exchange_name ∙ rw (str_eq_of_ne named) t.default_unlogged);
          default_exchange =
              lookup-insert x default_exchange_name e b.exchanges
              ∙ rw (str_eq_of_ne named) t.default_exchange;
          restored = λ y ne known.
              rw (logged, replay-append)
                (exchanges y ∙ elim (text_cases x y) [
                  | inl (h, _) ↦ rw (h, lookup-insert, h) refl
                  | inr (h, k) ↦
                      rw (h, lookup-insert, h)
                        (t.restored y ne (sym (others y (λ p. k (sym p))) ∙ known))
                ]);
          coming = λ y later. elim (text_cases x y) [
            | inl (_, p) ↦ cc (gone, later, ap (λ k. has k left') p)
            | inr (h, k) ↦
                lookup-insert x y e b.exchanges
                ∙ rw h (t.coming y (sym (others y (λ p. k (sym p))) ∙ later))
          ];
          are_bound = AreBound-insert b.queues b.exchanges t.are_bound x e all;
        }
