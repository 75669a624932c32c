-- ===== src/Engine/Broker/Owned.antt =====
-- Who owns a token: every token in flight in a runtime of an open broker leads to that runtime, so that
-- Ack finds it.
pub mod Unchanged
pub mod Reached
use mathlib.Core.Option.{some-injective}
use text.Mathlib.TextPositions.{eq_refl}
use dsend.Base.{
  String, Bool, true, false, not, ◌||◌, Option, none, some, List, [], ◌∷◌, ◌≡◌, ◌≢◌, refl, sym, ap,
  subst, ◌∙◌, arith, inl, inr, Map, keys, lookup, insert, delete, lookup-insert, lookup-delete,
  delete_func, str_eq, str_eq_of_ne, nat_eq, length, text_cases, if_cases, Option-cases, Bool-cases,
}
use dsend.Model.{Record, InFlightMessage, ExchangeType, default_queue_name}
use dsend.Inflight
use dsend.Inflight.{new_manager}
use dsend.Storage.{Wal, IsWal}
use dsend.Exchange.{
  Exchange, BindingError, binding_not_exist, binding_already_exist, new_exchange_factory, bind,
  unbind, list_bindings,
}
use dsend.Engine.{Config, Shared, Error, err_wal_append}
use dsend.Engine.QueueRuntime.{QueueRuntime, close_if_empty, set_token_hooks, new_queue_runtime}
use dsend.Engine.QueueRuntime.Steps as RuntimeSteps
use dsend.Engine.QueueRuntime.Steps.{core-close_if_empty}
use dsend.Engine.QueueRuntime.Owners.{Owns, Carries, silent, quiet}
use dsend.Engine.QueueRuntime.Owners.Carried.{Step-Carries}
use dsend.Engine.Broker.{
  Broker, Outcome, put_queue, put_exchange, with_log, log_then, new_runtime, start_queue,
  new_in_memory_broker,
}
use dsend.Engine.Broker.Names.{
  validate_queue_name, validate_binding_key, validate_exchange_name, validate_exchange_type,
}
use dsend.Engine.Broker.Queues.{
  create_queue, queue_added, queue_created_record, queue_deleted_record, queue_unbinded_record,
  disown, queue_dropped, unbind_logged, unbind_round, unbind_everywhere, loop_ended, delete_closed,
  delete_queue,
}
use dsend.Engine.Broker.Exchanges.{
  exchange_deleted_record, rebind, create_exchange, delete_exchange, bind_queue, unbind_queue,
}
use dsend.Engine.Broker.Messages.{start, start_all, shutdown}
use dsend.Engine.Broker.Sound.{Sound, log_then_cases}
use dsend.Engine.Broker.Startup.{with_queues, with_default_queue, restore_queues}
use dsend.Engine.Broker.Startup.First.{first}
use dsend.Engine.Broker.Steps.{
  Step, Reach, here, next, creates_queue, deletes_queue, creates_exchange, deletes_exchange, binds,
  unbinds, starts, shuts_down, works, broker-Sound,
}

-- Disowning a name leaves the other owners.
lookup-disown :
    (name token n : String) (owners : Map String)
    → n ≢ name
    → lookup token owners ≡ some n
    → lookup token (disown name owners) ≡ some n
unfolding delete_func lookup
lookup-disown name token n [] ne e = e
lookup-disown name token n ((k, owner) ∷ rest) ne e = elim (text_cases k token) [
  | inl (h, p) ↦
      let mine : owner ≢ name = λ x. ne (some-injective n owner (sym (rw h at e)) ∙ x) in
      rw (str_eq_of_ne mine, h) (rw h at e)
  | inr (h, _) ↦
      let later = lookup-disown name token n rest ne (rw h at e) in
      elim (Bool-cases (str_eq owner name)) [ inl x ↦ rw x later | inr x ↦ rw (x, h) later ]
]

module _ {W : Type 0} where
  -- While the broker is open, each of its runtimes owns the tokens that it has in flight.
  abbrev pub IsOwned : Broker W → Type 0
  IsOwned b =
      b.closed ≡ false
      → (n : String) (q : QueueRuntime) → lookup n b.queues ≡ some q
      → Owns n (q, b.shared)

  -- The queues and the owners are the same.
  pub record Same (b c : Broker W) : Type 0 where
    pub queues : c.queues ≡ b.queues
    pub owners : c.shared.token_owners ≡ b.shared.token_owners
    pub closed : c.closed ≡ b.closed

  pub Same-trans : {b c d : Broker W} → Same b c → Same c d → Same b d
  Same-trans x y = record {
    queues = y.queues ∙ x.queues;
    owners = y.owners ∙ x.owners;
    closed = y.closed ∙ x.closed;
  }

  pub itself : (b : Broker W) → Same b b
  itself b = record { queues = refl; owners = refl; closed = refl }

  pub Same-IsOwned : {b c : Broker W} → Same b c → IsOwned b → IsOwned c
  Same-IsOwned {b} {c} x o is_open n q e =
      (silent n {q = q} {s = b.shared} refl x.owners).owns
        (o (sym x.closed ∙ is_open) n q (rw x.queues at e))

  -- A runtime has changed, and with it the shared state.
  pub put-IsOwned :
      (b c : Broker W) (name : String) (q q' : QueueRuntime)
      → c.queues ≡ insert name q' b.queues
      → c.closed ≡ b.closed
      → lookup name b.queues ≡ some q
      → Carries name (q, b.shared) (q', c.shared)
      → IsOwned b
      → IsOwned c
  put-IsOwned b c name q q' e f found carries o is_open n r at_n =
      let was_open = sym f ∙ is_open in
      elim (text_cases name n) [
        | inl (h, p) ↦
            subst (λ (k : QueueRuntime). Owns n (k, c.shared))
              (some-injective q' r (rw (e, lookup-insert, h) at at_n))
              (subst (λ (k : String). Owns k (q', c.shared)) p
                (carries.owns (o was_open name q found)))
        | inr (h, ne) ↦
            let old = o was_open n r (rw (e, lookup-insert, h) at at_n) in
            record {
              registered = old.registered;
              removed = old.removed;
              owned = λ token item flying.
                  carries.others (o was_open name q found) token n (old.owned token item flying)
                    (λ k. ne (sym k));
            }
      ]

  -- A queue less.
  pub delete-IsOwned :
      (b c : Broker W) (name : String)
      → c.queues ≡ delete name b.queues
      → c.shared.token_owners ≡ b.shared.token_owners
      → c.closed ≡ b.closed
      → IsOwned b
      → IsOwned c
  delete-IsOwned b c name e owners f o is_open n r at_n = elim (text_cases name n) [
    | inl (h, _) ↦ cc (rw (e, lookup-delete, h) at at_n)
    | inr (h, _) ↦
        (silent n {q = r} {s = b.shared} refl owners).owns
          (o (sym f ∙ is_open) n r (rw (e, lookup-delete, h) at at_n))
  ]

  pub dropped-IsOwned :
      (b : Broker W) (name : String) (runtime : QueueRuntime)
      → lookup name b.queues ≡ none
      → IsOwned b
      → IsOwned (queue_dropped b name runtime)
  unfolding queue_dropped
  dropped-IsOwned b name runtime gone o is_open n q e =
      let old = o is_open n q e in
      record {
        registered = old.registered;
        removed = old.removed;
        owned = λ token item flying.
            lookup-disown name token n b.shared.token_owners
              (λ p. cc (gone, ap (λ k. lookup k b.queues) p, e)) (old.owned token item flying);
      }
