-- ===== src/Session.antt =====
-- internal/session/session.go. A session is shared by pointer: `address` is the pointer, by which a
-- holder of the session is told apart from a later one of the same ID. The channel `Deliveries` is
-- the list of what it buffers; `closed` says whether the channel `Closed` is closed.
use dsend.Base.{ℕ, ℤ, pos, String, Bool, true, false, List, [], ltb_ℤ, ltb, length}
use dsend.Model.{Delivery}

-- ConsumerSession
pub record ConsumerSession : Type 0 where
  pub address : ℕ
  pub id : String
  pub deliveries : List Delivery
  pub closed : Bool
  pub unacked_count : ℤ

-- the capacity of `Deliveries`
abbrev pub deliveries_capacity : ℕ
deliveries_capacity = 100

-- NewConsumerSession
unfoldable pub new_consumer_session : ℕ → String → ConsumerSession
new_consumer_session address id = record {
  address = address;
  id = id;
  deliveries = [];
  closed = false;
  unacked_count = pos 0;
}

-- Close: `closeOnce` makes a second call do nothing.
unfoldable pub close : ConsumerSession → ConsumerSession
close cs = record cs { closed = true }

-- IsEligible
unfoldable pub is_eligible : ConsumerSession → ℤ → Bool
is_eligible cs max_prefetch_count = ltb_ℤ cs.unacked_count max_prefetch_count

-- a send on `Deliveries` is ready
unfoldable pub has_room : ConsumerSession → Bool
has_room cs = ltb (length cs.deliveries) deliveries_capacity
