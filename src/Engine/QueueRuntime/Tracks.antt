-- ===== src/Engine/QueueRuntime/Tracks.antt =====
-- The deliveries that processExpiredMessages works on: each has its token in the in-flight map, with
-- its message, and no token stands twice.
use mathlib.Core.List.{Permᴰ}
use text.Mathlib.TextPositions.{eq_refl}
use dsend.Base.{
  ℕ, ℤ, String, some, List, [], ◌∷◌, ◌≡◌, ◌≢◌, refl, sym, subst, All, if_cases, str_eq_of_ne, Map,
  lookup, IsMap, Absent, ◌∙◌,
}
use dsend.Model.{Delivery, InFlightMessage}
use dsend.Inflight
use dsend.Inflight.{Manager, delivery_of, expired, expired_from}
use dsend.Inflight.Laws as Flight

-- The token of a delivery is in flight with the delivery's message.
abbrev pub IsTracked : Manager → Delivery → Type 0
IsTracked m item =
    (entry : InFlightMessage) × (Inflight.get m item.ack_token ≡ some entry)
    × (entry.message ≡ item.message)
    × (entry.consumer_id ≡ item.consumer_id)

abbrev pub Tracks : Manager → List Delivery → Type 0
Tracks m [] = Unit
Tracks m (item ∷ items) =
    IsTracked m item × All (λ (d : Delivery). item.ack_token ≢ d.ack_token) items × Tracks m items

-- Taking out one token leaves the others tracked.
pub remove-Tracks :
    (m : Manager) (token : String) (entry : InFlightMessage) (items : List Delivery)
    → Flight.IsValid m
    → Inflight.get m token ≡ some entry
    → All (λ (d : Delivery). token ≢ d.ack_token) items
    → Tracks m items
    → Tracks (Inflight.remove m token).1 items
remove-Tracks m token entry [] v e apart t = tt
remove-Tracks m token entry (item ∷ items) v e apart ((found, here, same, by), rest, t) =
    ((found, kept ∙ here, same, by), rest, remove-Tracks m token entry items v e apart.1 t)
  where
    kept : Inflight.get (Inflight.remove m token).1 item.ack_token ≡ Inflight.get m item.ack_token
    kept = (Flight.remove_lem m token entry v e).4 item.ack_token ∙ rw (str_eq_of_ne apart.0)

All-Permᴰ {ℓ κ} : {A : Type ℓ} (P : A → Type κ) {xs ys : List A} → Permᴰ xs ys → All P xs → All P ys
All-Permᴰ P Permᴰ.nil h = h
All-Permᴰ P (Permᴰ.cons e p) h = (rw (← e) h.0, All-Permᴰ P p h.1)
All-Permᴰ P (Permᴰ.swap e f) h = (rw (← f) h.1.0, (rw (← e) h.0, h.1.1))
All-Permᴰ P (Permᴰ.trans p q) h = All-Permᴰ P q (All-Permᴰ P p h)

Tracks-swap :
    (m : Manager) (a b : Delivery) (l : List Delivery) → Tracks m (a ∷ b ∷ l) → Tracks m (b ∷ a ∷ l)
Tracks-swap m a b l (x, (apart, x_l), (y, y_l, t)) = (y, ((λ h. apart (sym h)), y_l), (x, x_l, t))

-- In any order.
pub Tracks-Permᴰ : (m : Manager) {xs ys : List Delivery} → Permᴰ xs ys → Tracks m xs → Tracks m ys
Tracks-Permᴰ m Permᴰ.nil t = t
Tracks-Permᴰ m (Permᴰ.cons e p) t =
    (rw (← e) t.0, rw (← e) (All-Permᴰ _ p t.1), Tracks-Permᴰ m p t.2)
Tracks-Permᴰ m (Permᴰ.swap {b = b} {b' = b'} {l = l} e f) t =
    subst (λ (x : Delivery). Tracks m (x ∷ b' ∷ l)) f
      (subst (λ (y : Delivery). Tracks m (b ∷ y ∷ l)) e (Tracks-swap m _ b l t))
Tracks-Permᴰ m (Permᴰ.trans p q) t = Tracks-Permᴰ m q (Tracks-Permᴰ m p t)

-- Every entry of a map is found under its key.
found_later :
    (k : String) (v : InFlightMessage) (m rest : Map InFlightMessage)
    → Absent k rest
    → All (λ (e : String × InFlightMessage). lookup e.0 m ≡ some e.1) rest
    → All (λ (e : String × InFlightMessage). lookup e.0 ((k, v) ∷ m) ≡ some e.1) rest
unfolding lookup
found_later k v m [] absent h = tt
found_later k v m (e ∷ rest) absent h =
    (rw (str_eq_of_ne (λ p. absent.0 (sym p))) h.0, found_later k v m rest absent.1 h.1)

found-All :
    (m : Map InFlightMessage)
    → IsMap m
    → All (λ (e : String × InFlightMessage). lookup e.0 m ≡ some e.1) m
unfolding lookup
found-All [] v = tt
found-All ((k, x) ∷ m) v = (rw eq_refl, found_later k x m m v.0 (found-All m v.1))

module _ (timeout : ℤ) (now : String → ℕ) where
  expired_apart :
      (k : String) (rest : Map InFlightMessage)
      → Absent k rest
      → All (λ (d : Delivery). k ≢ d.ack_token) (expired_from timeout now rest)
  unfolding expired_from
  expired_apart k [] absent = tt
  expired_apart k ((j, x) ∷ rest) absent =
      if_cases (All (λ (d : Delivery). k ≢ d.ack_token)) _
        {x = delivery_of j x ∷ expired_from timeout now rest}
        (λ _. ((λ p. absent.0 (sym p)), expired_apart k rest absent.1))
        (λ _. expired_apart k rest absent.1)

  expired_from-Tracks :
      (m : Manager) (rest : Map InFlightMessage)
      → IsMap rest
      → All (λ (e : String × InFlightMessage). Inflight.get m e.0 ≡ some e.1) rest
      → Tracks m (expired_from timeout now rest)
  unfolding expired_from
  expired_from-Tracks m [] v h = tt
  expired_from-Tracks m ((j, x) ∷ rest) v h =
      if_cases (Tracks m) _ {x = delivery_of j x ∷ expired_from timeout now rest}
        (λ _. ((x, h.0, refl, refl), expired_apart j rest v.0, expired_from-Tracks m rest v.1 h.1))
        (λ _. expired_from-Tracks m rest v.1 h.1)

  -- What the manager lists as expired is tracked by it.
  pub expired-Tracks : (m : Manager) → Flight.IsValid m → Tracks m (expired m timeout now)
  unfolding expired Inflight.get
  expired-Tracks m v = expired_from-Tracks m m.deliveries v (found-All m.deliveries v)
