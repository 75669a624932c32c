-- ===== src/Inflight.antt =====
-- internal/inflight/manager.go: the deliveries that wait for an acknowledgement. The manager's own
-- lock makes each method one step.
pub mod Laws
use dsend.Base.{
  ℕ, ℤ, pos, ◌-ℤ◌, String, Bool, true, false, Option, none, some, List, [], ◌∷◌, ltb_ℤ, length, Map,
  lookup, insert, delete, if◌then◌else◌,
}
use dsend.Model.{Message, InFlightMessage, Delivery}

-- Manager
pub record Manager : Type 0 where
  pub deliveries : Map InFlightMessage

-- NewManager
unfoldable pub new_manager : Manager
new_manager = record { deliveries = [] }

-- Add, at the time `now`
unfoldable pub add : Manager → String → Message → String → ℕ → Manager
add m token message session_id now = record {
  deliveries =
      insert token (record { message = message; consumer_id = session_id; delivered_at = now })
        m.deliveries;
}

-- Remove
unfoldable pub remove : Manager → String → Option InFlightMessage × Manager
remove m token = elim (lookup token m.deliveries) [
  | none ↦ (none, m)
  | some inflight ↦ (some inflight, record { deliveries = delete token m.deliveries })
]

-- Get
unfoldable pub get : Manager → String → Option InFlightMessage
get m token = lookup token m.deliveries

abbrev pub delivery_of : String → InFlightMessage → Delivery
delivery_of token item = record {
  message = item.message;
  ack_token = token;
  consumer_id = item.consumer_id;
}

-- Expired. `now` gives the reading of the clock that the entry of each token is compared with:
-- `time.Since` reads it once for each entry.
unfoldable pub expired_from : ℤ → (String → ℕ) → Map InFlightMessage → List Delivery
expired_from timeout now [] = []
expired_from timeout now ((token, item) ∷ rest) =
    let found = expired_from timeout now rest in
    if ltb_ℤ timeout (pos (now token) -ℤ pos item.delivered_at)
    then delivery_of token item ∷ found
    else found

unfoldable pub expired : Manager → ℤ → (String → ℕ) → List Delivery
unfolding expired_from
expired m timeout now = expired_from timeout now m.deliveries

-- IsPresent
pub is_present : Manager → String → Bool
is_present m token = elim (lookup token m.deliveries) [ none ↦ false | some _ ↦ true ]

-- Size
unfoldable pub size : Manager → ℕ
size m = length m.deliveries
