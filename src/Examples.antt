-- ===== src/Examples.antt =====
-- Data for the examples: a log that is a list of records, and two small queues.
pub mod Broker
pub mod Publishing
pub mod Refused
pub mod Deleted
pub mod Engine
pub mod Exchange
pub mod Storage
pub mod FileWal
pub mod Server
pub mod Client
pub mod Expiry
pub mod Acknowledged
use dsend.Base.{
  ℕ, ℤ, pos, String, Bool, true, false, Option, none, some, List, [], ◌∷◌, ◌++◌, ◌≡◌, refl, Map,
}
use dsend.Model.{Message, Record}
use dsend.Session.{ConsumerSession}
use dsend.Storage.{Wal, IsWal}
use dsend.Engine.{Config, Shared, default_config}

-- A log whose Append never fails.
instance unfoldable pub list_wal : Wal (List Record)
list_wal = record { append = λ w r. (w ++ r ∷ [], true) }

unfoldable pub list_wal-IsWal : IsWal list_wal
unfolding list_wal
list_wal-IsWal = record { log = λ w. w; append_ok = λ w r _. refl; append_failed = λ w r e. cc }

abbrev pub message_of : String → Message
message_of payload = record {
  id = payload;
  payload = payload;
  timestamp = 1;
  retry = pos 0;
  expiry_at = none;
}

abbrev pub small_config : Config
small_config = record default_config { queue_size = pos 2 }

abbrev pub empty_shared : Shared (List Record)
empty_shared = record { wal = []; token_owners = [] }

abbrev pub alice : ConsumerSession
alice = record { address = 1; id = "alice"; deliveries = []; closed = false; unacked_count = pos 0 }
