-- ===== src/Engine.antt =====
-- internal/engine: the queue runtimes and the broker that owns them. This file has what they share:
-- the configuration, the errors, and the state that the runtimes of one broker reach by pointer.
pub mod QueueRuntime
pub mod Broker
use dsend.Base.{ℕ, ℤ, pos, String, Option, Map}

-- Config. A `time.Duration` is a number of nanoseconds.
pub record Config : Type 0 where
  pub ack_timeout : ℤ
  pub redelivery_interval : ℤ
  pub expiry_interval : ℤ
  pub max_retries : ℤ
  pub queue_size : ℤ
  pub consumer_prefetch : ℤ

-- DefaultConfig
abbrev pub default_config : Config
default_config = record {
  ack_timeout = pos 100_000_000_000;
  redelivery_interval = pos 5_000_000_000;
  expiry_interval = pos 1_000_000_000;
  max_retries = pos 3;
  queue_size = pos 20;
  consumer_prefetch = pos 10;
}

-- The errors of mem_broker.go, those of the exchange package, and a failed `Append`.
pub data Error : Type 0 where
  err_queue_exists err_queue_not_empty err_queue_not_found err_invalid_queue : Error
  err_broker_closed err_invalid_ack_token : Error
  err_exchange_not_found err_invalid_exchange err_invalid_exchange_type : Error
  err_default_exchange err_exchange_exists err_exchange_not_empty : Error
  err_no_route err_invalid_binding_key : Error
  err_binding_not_exist err_binding_already_exist : Error
  err_wal_append : Error

-- What a runtime shares with its broker: the log, and the broker's map from a token to the name of
-- the runtime that owns it.
pub record Shared (W : Type 0) : Type 0 where
  pub wal : W
  pub token_owners : Map String

-- A token hook acts on the broker's map.
abbrev pub TokenHook : Type 0
TokenHook = Option (String → Map String → Map String)
