-- ===== src/Engine/Broker/Startup/Recovered.antt =====
-- What Load returns for a log, and what a restart makes of the broker that wrote it.
use mathlib.Core.Option
use mathlib.Core.Option.{some-injective}
use dsend.Base.{
  ◌⊎◌, Option, String, none, some, List, [], ◌∷◌, ◌≡◌, ◌≢◌, refl, inl, inr, IsMap, lookup, has,
  Perm,
}
use dsend.Model.{Record, default_queue_name, default_exchange_name}
use dsend.Storage.{Wal, IsWal, RecoveredState, replay}
use dsend.Storage.Keys.{replay-AreMaps}
use dsend.Exchange.{Exchange}
use dsend.Engine.{
  Error, err_queue_exists, err_queue_not_empty, err_queue_not_found, err_invalid_queue,
  err_broker_closed, err_invalid_ack_token, err_exchange_not_found, err_invalid_exchange,
  err_invalid_exchange_type, err_default_exchange, err_exchange_exists, err_exchange_not_empty,
  err_no_route, err_invalid_binding_key, err_binding_not_exist, err_binding_already_exist,
  err_wal_append,
}
use dsend.Engine.QueueRuntime.{QueueRuntime}
use dsend.Engine.QueueRuntime.Durable.{live}
use dsend.Engine.Broker.{Broker, Outcome}
use dsend.Engine.Broker.Agrees.{state_of}
use dsend.Engine.Broker.Sound.{Sound}
use dsend.Engine.Broker.Startup.Restoring.{fresh_default}

-- Whether the log has refused a record.
pub refused_cases : (err : Option Error) → (err ≡ some err_wal_append) ⊎ (err ≢ some err_wal_append)
refused_cases none = inr (λ e. cc e)
refused_cases (some err_queue_exists) = inr (λ e. cc e)
refused_cases (some err_queue_not_empty) = inr (λ e. cc e)
refused_cases (some err_queue_not_found) = inr (λ e. cc e)
refused_cases (some err_invalid_queue) = inr (λ e. cc e)
refused_cases (some err_broker_closed) = inr (λ e. cc e)
refused_cases (some err_invalid_ack_token) = inr (λ e. cc e)
refused_cases (some err_exchange_not_found) = inr (λ e. cc e)
refused_cases (some err_invalid_exchange) = inr (λ e. cc e)
refused_cases (some err_invalid_exchange_type) = inr (λ e. cc e)
refused_cases (some err_default_exchange) = inr (λ e. cc e)
refused_cases (some err_exchange_exists) = inr (λ e. cc e)
refused_cases (some err_exchange_not_empty) = inr (λ e. cc e)
refused_cases (some err_no_route) = inr (λ e. cc e)
refused_cases (some err_invalid_binding_key) = inr (λ e. cc e)
refused_cases (some err_binding_not_exist) = inr (λ e. cc e)
refused_cases (some err_binding_already_exist) = inr (λ e. cc e)
refused_cases (some err_wal_append) = inl refl

-- What Load returns for a log: the maps of its replay, in any order.
pub record Loads (log : List Record) (state : RecoveredState) : Type 0 where
  pub messages_map : IsMap state.pending_messages
  pub exchanges_map : IsMap state.pending_exchanges
  pub messages :
      (n : String) → lookup n state.pending_messages ≡ lookup n (replay log).pending_messages
  pub exchanges :
      (x : String) → lookup x state.pending_exchanges ≡ lookup x (replay log).pending_exchanges

-- The replay itself is one.
pub replay-Loads : (log : List Record) → Loads log (replay log)
replay-Loads log = record {
  messages_map = (replay-AreMaps log).0;
  exchanges_map = (replay-AreMaps log).1;
  messages = λ n. refl;
  exchanges = λ x. refl;
}

-- What a restart makes of a broker.
pub record Recovered {W : Type 0} ⦃wal : Wal W⦄ (laws : IsWal wal) (b : Broker W) (o : Outcome W)
    : Type 0 where
  pub fine : o.1 ≡ none
  pub sound : Sound laws o.0
  pub queues : (n : String) → has n o.0.queues ≡ has n b.queues
  pub messages :
      (n : String) (q q' : QueueRuntime)
      → lookup n b.queues ≡ some q
      → lookup n o.0.queues ≡ some q'
      → Perm (live q') (live q)
  pub exchanges :
      (x : String)
      → x ≢ default_exchange_name
      → Option.map state_of (lookup x o.0.exchanges) ≡ Option.map state_of (lookup x b.exchanges)
  pub default_only :
      lookup default_exchange_name o.0.exchanges
      ≡ some (record fresh_default {
        bindings =
            record { queue_name = default_queue_name; binding_key = default_queue_name } ∷ [];
      })

-- the default exchange, with the binding of the default queue
abbrev pub bound_default : Exchange
bound_default = record fresh_default {
  bindings = record { queue_name = default_queue_name; binding_key = default_queue_name } ∷ [];
}
