-- ===== src/Engine/Broker/Agrees.antt =====
-- What the broker's maps and its log have in common: a restart finds the same queues and exchanges.
use mathlib.Core.Option
use text.Mathlib.TextPositions.{eq_refl}
use dsend.Base.{
  String, Bool, true, ◌||◌, none, some, List, [], ◌≡◌, ◌≢◌, refl, sym, ap, subst, ◌∙◌, arith, inl,
  inr, Map, lookup, insert, delete, has, has-insert, has-delete, lookup-insert, lookup-delete,
  str_eq, str_eq_of_ne, text_cases, if◌then◌else◌,
}
use dsend.Model.{
  Record, exchange_type_text, default_queue_name, default_exchange_name, queue_created,
  queue_deleted, queue_binded, queue_unbinded, exchange_created, exchange_deleted,
}
use dsend.Storage.{ExchangeState, RecoveredState, apply_record, replay}
use dsend.Storage.Topology.{
  bound, unbound, exchanges-created, has-created, exchanges-deleted, messages-deleted,
  messages-exchange_created, exchanges-exchange_created, messages-exchange_deleted,
  exchanges-exchange_deleted, messages-binded, exchanges-binded, messages-unbinded,
  exchanges-unbinded,
}
use dsend.Storage.Frame.{Frame}
use dsend.Exchange.{Exchange}
use dsend.Engine.QueueRuntime.{QueueRuntime}

-- an exchange, as the log has it
abbrev pub state_of : Exchange → ExchangeState
state_of e = record { exchange_type = exchange_type_text e.type; bindings = e.bindings }

-- The recovered state has the broker's queues and exchanges. The default queue and the default exchange
-- are made by every start, and the log need not have them; it never has the exchange.
pub record Agrees (state : RecoveredState) (queues : Map QueueRuntime) (exchanges : Map Exchange)
    : Type 0 where
  pub queues_logged :
      (n : String) → n ≢ default_queue_name → has n state.pending_messages ≡ has n queues
  pub exchanges_logged :
      (x : String)
      → x ≢ default_exchange_name
      → lookup x state.pending_exchanges ≡ Option.map state_of (lookup x exchanges)
  pub default_unlogged : lookup default_exchange_name state.pending_exchanges ≡ none

module _ {state : RecoveredState} {queues : Map QueueRuntime} {exchanges : Map Exchange}
    (a : Agrees state queues exchanges) (r : Record) where
  pub created-Agrees :
      (q : QueueRuntime)
      → r.type ≡ queue_created
      → Agrees (apply_record state r) (insert r.queue q queues) exchanges
  created-Agrees q t = record {
    queues_logged = λ n ne.
        has-created state r t n
        ∙ ap (λ (h : Bool). str_eq r.queue n || h) (a.queues_logged n ne)
        ∙ sym (has-insert r.queue n q queues);
    exchanges_logged = λ x ne. rw (exchanges-created state r t) (a.exchanges_logged x ne);
    default_unlogged = rw (exchanges-created state r t) a.default_unlogged;
  }

  pub deleted-Agrees :
      r.type ≡ queue_deleted → Agrees (apply_record state r) (delete r.queue queues) exchanges
  deleted-Agrees t = record {
    queues_logged = λ n ne.
        ground
          (arith, messages-deleted state r t n, has-delete r.queue n queues, a.queues_logged n ne);
    exchanges_logged = λ x ne. rw (exchanges-deleted state r t) (a.exchanges_logged x ne);
    default_unlogged = rw (exchanges-deleted state r t) a.default_unlogged;
  }

  pub exchange_created-Agrees :
      (e : Exchange)
      → r.type ≡ exchange_created
      → r.exchange ≢ default_exchange_name
      → state_of e ≡ record { exchange_type = r.exchange_type; bindings = [] }
      → Agrees (apply_record state r) queues (insert r.exchange e exchanges)
  exchange_created-Agrees e t named same = record {
    queues_logged = λ n ne. rw (messages-exchange_created state r t) (a.queues_logged n ne);
    exchanges_logged = λ x ne.
        exchanges-exchange_created state r t x
        ∙ ground (arith, same, lookup-insert r.exchange x e exchanges, a.exchanges_logged x ne);
    default_unlogged =
        exchanges-exchange_created state r t default_exchange_name
        ∙ rw (str_eq_of_ne named) a.default_unlogged;
  }

  pub exchange_deleted-Agrees :
      r.type ≡ exchange_deleted → Agrees (apply_record state r) queues (delete r.exchange exchanges)
  exchange_deleted-Agrees t = record {
    queues_logged = λ n ne. rw (messages-exchange_deleted state r t) (a.queues_logged n ne);
    exchanges_logged = λ x ne.
        exchanges-exchange_deleted state r t x
        ∙ ground (arith, lookup-delete r.exchange x exchanges, a.exchanges_logged x ne);
    default_unlogged =
        exchanges-exchange_deleted state r t default_exchange_name
        ∙ ground (arith, a.default_unlogged);
  }

  module _ (e e' : Exchange) (here : lookup r.exchange exchanges ≡ some e) where
    -- a record that changes one exchange's state as the broker has changed the exchange
    rebound :
        (f : ExchangeState → ExchangeState) (state' : RecoveredState)
        → state_of e' ≡ f (state_of e)
        → state'.pending_messages ≡ state.pending_messages
        → ((x : String)
            → lookup x state'.pending_exchanges ≡ (
                if str_eq r.exchange x
                then Option.map f (lookup x state.pending_exchanges)
                else lookup x state.pending_exchanges))
        → Agrees state' queues (insert r.exchange e' exchanges)
    rebound f state' same messages found = record {
      queues_logged = λ n ne. rw messages (a.queues_logged n ne);
      exchanges_logged = λ x ne. found x ∙ elim (text_cases r.exchange x) [
        | inl (h, p) ↦
            rw (h, a.exchanges_logged x ne, ← p, here, lookup-insert, eq_refl) (ap some (sym same))
        | inr (h, p) ↦ rw (h, lookup-insert, h) (a.exchanges_logged x ne)
      ];
      default_unlogged =
          found default_exchange_name ∙ elim (text_cases r.exchange default_exchange_name) [
            | inl (h, p) ↦ rw (h, a.default_unlogged) refl
            | inr (h, p) ↦ rw h a.default_unlogged
          ];
    }

    pub binded-Agrees :
        r.type ≡ queue_binded
        → state_of e' ≡ bound r (state_of e)
        → Agrees (apply_record state r) queues (insert r.exchange e' exchanges)
    binded-Agrees t same =
        rebound (bound r) (apply_record state r) same (messages-binded state r t)
          (exchanges-binded state r t)

    pub unbinded-Agrees :
        r.type ≡ queue_unbinded
        → state_of e' ≡ unbound r (state_of e)
        → Agrees (apply_record state r) queues (insert r.exchange e' exchanges)
    unbinded-Agrees t same =
        rebound (unbound r) (apply_record state r) same (messages-unbinded state r t)
          (exchanges-unbinded state r t)

-- Runtimes come and go as pointers: only their names count.
pub renamed-Agrees :
    {state : RecoveredState} {queues queues' : Map QueueRuntime} {exchanges : Map Exchange}
    → Agrees state queues exchanges
    → ((n : String) → has n queues' ≡ has n queues)
    → Agrees state queues' exchanges
renamed-Agrees a same = record {
  queues_logged = λ n ne. a.queues_logged n ne ∙ sym (same n);
  exchanges_logged = a.exchanges_logged;
  default_unlogged = a.default_unlogged;
}

-- The messages of a queue that exists leave the queues and the exchanges alone.
pub framed-Agrees :
    {name : String} {log log' : List Record} {queues : Map QueueRuntime} {exchanges : Map Exchange}
    → has name queues ≡ true
    → Frame name log log'
    → Agrees (replay log) queues exchanges
    → Agrees (replay log') queues exchanges
framed-Agrees {name} {log} {log'} {queues} here f a = record {
  queues_logged = λ n ne. elim (text_cases n name) [
    | inl (_, p) ↦
        let was =
          subst (λ k. has k (replay log).pending_messages ≡ has k queues) p
            (a.queues_logged n ne) in
        rw p (f.kept (was ∙ here) ∙ sym here)
    | inr (_, p) ↦ rw (f.others n p, has) (a.queues_logged n ne)
  ];
  exchanges_logged = λ x ne. rw f.exchanges (a.exchanges_logged x ne);
  default_unlogged = rw f.exchanges a.default_unlogged;
}
