-- ===== src/Engine/Broker/Acknowledged.antt =====
-- Ack of a token that is in flight.
use text.Mathlib.TextPositions.{eq_refl}
use dsend.Base.{
  ◌+◌, String, true, false, none, some, ◌∷◌, ◌≡◌, refl, ap, ◌∙◌, Perm, lookup, lookup-insert,
}
use dsend.Model.{InFlightMessage}
use dsend.Inflight
use dsend.Inflight.Laws as Flight
use dsend.Storage.{Wal, IsWal}
use dsend.Engine.{err_invalid_ack_token}
use dsend.Engine.QueueRuntime.{QueueRuntime, call_hook}
use dsend.Engine.QueueRuntime.Produce.{acked, acked_lem, acknowledged_record}
use dsend.Engine.QueueRuntime.Owners.{owners-removes}
use dsend.Engine.Broker.{Broker, put_queue}
use dsend.Engine.Broker.Messages.{ack}
use dsend.Engine.Broker.Sound.{Sound}
use dsend.Engine.Broker.Steps.{Reach, broker-Sound}
use dsend.Engine.Broker.Owned.{IsOwned}
use dsend.Engine.Broker.Owned.Reached.{Reach-IsOwned}

module _ {W : Type 0} ⦃wal : Wal W⦄ where
  -- the broker after it
  abbrev acknowledged : Broker W → String → QueueRuntime → String → InFlightMessage → Broker W
  acknowledged b name q token item =
      put_queue
        (record b {
          shared =
              call_hook q.remove_token token (record b.shared {
                wal = (wal.append b.shared.wal (acknowledged_record q item)).0;
              });
        })
        name (acked q token item)

  ack_fine :
      (b : Broker W) (name : String) (q : QueueRuntime) (token : String) (item : InFlightMessage)
      → lookup token b.shared.token_owners ≡ some name
      → lookup name b.queues ≡ some q
      → Inflight.get q.in_flight_manager token ≡ some item
      → (wal.append b.shared.wal (acknowledged_record q item)).1 ≡ true
      → ack b token ≡ (acknowledged b name q token item, none)
  unfolding ack
  ack_fine b name q token item owned found here logged =
      rw (owned, found, acked_lem q b.shared token item here logged, ack) refl

  -- a token without an owner
  ack_unowned :
      (b : Broker W) (token : String)
      → lookup token b.shared.token_owners ≡ none
      → ack b token ≡ (b, some err_invalid_ack_token)
  unfolding ack
  ack_unowned b token unowned = rw (unowned, ack) refl

  -- In a run from a sound broker whose runtimes own their tokens, in which the log refuses no record of
  -- DeleteQueue, BindQueue and UnbindQueue, cancelReservation is called only while its queue has room and
  -- the delivery is still in flight, and new messages get IDs, and new deliveries tokens, that are not in
  -- use; while the broker is open: Ack of a
  -- token that is in flight in a queue, when the log takes the record, finds the queue and returns no
  -- error; the queue counts one acknowledged message more, its message is the one that is no longer in
  -- flight, and a second Ack of the token returns ErrInvalidAckToken.
  pub ack_in_flight :
      (laws : IsWal wal) {b c : Broker W} (n token : String) (q : QueueRuntime)
      (item : InFlightMessage)
      → Sound laws b
      → IsOwned b
      → Reach b c
      → c.closed ≡ false
      → lookup n c.queues ≡ some q
      → Inflight.get q.in_flight_manager token ≡ some item
      → (wal.append c.shared.wal (acknowledged_record q item)).1 ≡ true
      → let o = ack c token in
        (o.1 ≡ none)
        × ((q' : QueueRuntime) × (lookup n o.0.queues ≡ some q')
            × (q'.acked_count ≡ q.acked_count + 1)
            × Perm
                (Flight.messages q.in_flight_manager)
                (item.message ∷ Flight.messages q'.in_flight_manager))
        × ((ack o.0 token).1 ≡ some err_invalid_ack_token)
  unfolding acked
  ack_in_flight laws {b} {c} n token q item t o r is_open found here logged =
      let owns = Reach-IsOwned laws t o r is_open n q found in
      let fine = ack_fine c n q token item (owns.owned token item here) found here logged in
      let valid = (broker-Sound laws t r).runtimes n q found in
      let (_, _, left, _, _) =
        Flight.remove_lem q.in_flight_manager token item valid.1.inv.flight here in
      rw fine (
        refl,
        (acked q token item, rw (lookup-insert, eq_refl) refl, refl, left),
        ap (λ x. x.1)
            (ack_unowned (acknowledged c n q token item) token
              (owners-removes token token _ owns.removed ∙ rw eq_refl refl)),
      )
