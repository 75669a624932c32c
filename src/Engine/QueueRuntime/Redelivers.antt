-- ===== src/Engine/QueueRuntime/Redelivers.antt =====
-- processExpiredMessages keeps the invariant, in whatever order it meets the deliveries.
use mathlib.Core.List.{Permᴰ}
use dsend.Base.{ℕ, String, List, [], ◌∷◌, if_cases}
use dsend.Model.{Delivery}
use dsend.Inflight
use dsend.Storage.{Wal}
use dsend.Engine.{Shared}
use dsend.Engine.QueueRuntime.{QueueRuntime}
use dsend.Engine.QueueRuntime.Redelivery.{
  process_item, process_items, process_expired_messages, given_up, put_back,
}
use dsend.Engine.QueueRuntime.Cases.{process_item_cases}
use dsend.Engine.QueueRuntime.Invariant.{Inv, given_up-Inv, put_back-Inv}
use dsend.Engine.QueueRuntime.Balance.{not_full}
use dsend.Engine.QueueRuntime.Tracks.{Tracks, remove-Tracks, expired-Tracks, Tracks-Permᴰ}

-- The invariant, with the deliveries that are still to be looked at.
abbrev Going : {W : Type 0} → List Delivery → QueueRuntime × Shared W → Type 0
Going items r = Inv r.0 × Tracks r.0.in_flight_manager items

module _ {W : Type 0} ⦃wal : Wal W⦄ where
  pub process_item-Going :
      (q : QueueRuntime) (s : Shared W) (item : Delivery) (items : List Delivery)
      → Inv q
      → Tracks q.in_flight_manager (item ∷ items)
      → Going items (process_item q s item)
  unfolding given_up put_back
  process_item-Going q s item items v ((entry, e, _, _), apart, t) =
      process_item_cases q s (Going items) item (λ _. (v, t))
        (λ _ _ _. (given_up-Inv v item entry e, left)) (λ _ _ _. (v, t))
        (λ room _ _. (put_back-Inv v item entry e (not_full v room), left)) (λ _ _ _. (v, t))
    where
      left : Tracks (Inflight.remove q.in_flight_manager item.ack_token).1 items
      left = remove-Tracks q.in_flight_manager item.ack_token entry items v.flight e apart t

  process_items-Inv :
      (items : List Delivery) (q : QueueRuntime) (s : Shared W)
      → Inv q
      → Tracks q.in_flight_manager items
      → Inv (process_items q s items).0
  unfolding process_items
  process_items-Inv [] q s v t = v
  process_items-Inv (item ∷ items) q s v t =
      let (v', t') = process_item-Going q s item items v t in process_items-Inv items _ _ v' t'

  pub process_expired_messages-Inv :
      {q : QueueRuntime} (s : Shared W) (now : String → ℕ) (order : List Delivery → List Delivery)
      → ((items : List Delivery) → Permᴰ items (order items))
      → Inv q
      → Inv (process_expired_messages q s now order).0
  unfolding process_expired_messages
  process_expired_messages-Inv {q} s now order shuffles v =
      if_cases (λ (r : QueueRuntime × Shared W). Inv r.0) q.closed (λ _. v)
        (λ _. process_items-Inv _ q s v (
          Tracks-Permᴰ q.in_flight_manager (shuffles _)
            (expired-Tracks q.config.ack_timeout now q.in_flight_manager v.flight)))
