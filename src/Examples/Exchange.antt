-- ===== src/Examples/Exchange.antt =====
-- Bindings and topic keys.
use dsend.Base.{true, false, none, [], ◌∷◌, ◌≡◌, ◌↔◌, refl, eq_iff}
use dsend.Model.{topic_exchange}
use dsend.Exchange.{Exchange, check_binding_exists, bind, unbind, match, split, match_parts}
use dsend.Exchange.Bindings.{unbind-bind}
use dsend.Exchange.Topic.{Matches, match_iff, hash_segment_refused}

abbrev empty_topic : Exchange
empty_topic = record { name = "logs"; type = topic_exchange; bindings = [] }

match_iff_example :
    (match "orders.*" "orders.paid" ≡ true) ↔ Matches (split "orders.*") (split "orders.paid")
unfolding split
match_iff_example = match_iff "orders.*" "orders.paid" (
  (λ e. let p = (eq_iff "orders" "#").1 e in cc),
  ((λ e. let p = (eq_iff "paid" "#").1 e in cc), tt),
)

unbind-bind_example :
    unbind (bind empty_topic "orders.*" "orders").0 "orders.*" "orders" ≡ (empty_topic, none)
unfolding bind check_binding_exists
unbind-bind_example =
    unbind-bind "orders.*" "orders" empty_topic (λ e. let p = (eq_iff "orders.*" "").1 e in cc) refl

hash_segment_refused_example :
    Matches ("#" ∷ []) ("#" ∷ "paid" ∷ []) × (match_parts ("#" ∷ []) ("#" ∷ "paid" ∷ []) ≡ false)
hash_segment_refused_example = hash_segment_refused "paid" []
