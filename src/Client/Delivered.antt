-- ===== src/Client/Delivered.antt =====
-- A message on its way from the queue to the client: reserved, sent on the session's channel, forwarded
-- and received.
use text.Mathlib.TextPositions.{eq_refl}
use dsend.Base.{
  ℕ, ◌+◌, pos, ◌+ℤ◌, String, Bool, true, false, not, ◌&&◌, ◌||◌, Option, none, some, [], ◌∷◌, ◌++◌,
  map, length, length-append, ◌≡◌, refl, ap, subst, ◌∙◌, arith, inr, lookup, lookup-insert, insert,
  nat_eq, if◌then◌else◌,
}
use mathlib.Core.Option.{some-injective}
use dsend.Model.{InFlightMessage, Delivery}
use dsend.Inflight
use dsend.Inflight.Laws.{get-add}
use dsend.Session.{ConsumerSession, has_room}
use dsend.Storage.{Wal}
use dsend.Engine.{Shared}
use dsend.Engine.QueueRuntime.{QueueRuntime, next_session}
use dsend.Engine.QueueRuntime.Cases.{Turn, Reservation, reserve_live_cases}
use dsend.Engine.QueueRuntime.Deliver.{
  take_slot, reserve_delivery, reserve_live, reserve_for, hand_out, handed_out,
  dead_letter_expired_messages, dispatch, send_delivery, cancel_reservation,
}
use dsend.Engine.Broker.{Broker, put_queue}
use dsend.Engine.Broker.Messages.{queue_key}
use dsend.Server.{forwarder, Surroundings}
use dsend.Client.{Context}
use dsend.Client.Loopback.{idle}
use dsend.Client.Received.{of_delivery, pull, deliveries-Received}

-- What is in flight for a delivery.
abbrev pub in_flight_for : Delivery → ℕ → InFlightMessage
in_flight_for delivery now = record {
  message = delivery.message;
  consumer_id = delivery.consumer_id;
  delivered_at = now;
}

-- What a reservation leaves behind: the session has one message more to acknowledge, and the
-- delivery is in flight under its token.
record Handed (token : String) (now : ℕ) (q : QueueRuntime) (found : ConsumerSession × Delivery)
    : Type 0 where
  session :
      lookup found.0.id q.consumer_sessions
      ≡ some (record found.0 { unacked_count = found.0.unacked_count +ℤ pos 1 })
  flying : Inflight.get q.in_flight_manager token ≡ some (in_flight_for found.1 now)
  named : found.1.ack_token ≡ token

module _ {W : Type 0} ⦃wal : Wal W⦄ (token : String) (now : ℕ) where
  abbrev IsHanded : Reservation W → Type 0
  IsHanded r = (found : ConsumerSession × Delivery) → r.2 ≡ some found → Handed token now r.0 found

  reserve_for-IsHanded :
      (r : QueueRuntime × Option ConsumerSession) (s : Shared W)
      → IsHanded (reserve_for r s token now)
  unfolding reserve_for hand_out handed_out take_slot
  reserve_for-IsHanded (q, none) s found e = cc
  reserve_for-IsHanded (q, some sess) s found e =
      subst (Handed token now (handed_out q sess token now)) (some-injective _ found e) (record {
        session = rw (lookup-insert, eq_refl) refl;
        flying = get-add q.in_flight_manager token _ sess.id now token ∙ rw eq_refl refl;
        named = refl;
      })

  reserve_live-IsHanded : (r : Turn W) → IsHanded (reserve_live r token now)
  reserve_live-IsHanded (q, s, ok) =
      reserve_live_cases q s IsHanded ok token now (λ found e. cc e)
        (λ _. reserve_for-IsHanded (next_session q) s)

-- The session with the delivery behind those that it had, and one message more to acknowledge.
abbrev served_session : ConsumerSession → Delivery → ConsumerSession
served_session sess delivery = record sess {
  unacked_count = sess.unacked_count +ℤ pos 1;
  deliveries = sess.deliveries ++ delivery ∷ [];
}

abbrev served_runtime : QueueRuntime → ConsumerSession → Delivery → QueueRuntime
served_runtime q sess delivery = record q {
  consumer_sessions = insert sess.id (served_session sess delivery) q.consumer_sessions;
}

nat_eq_refl : (n : ℕ) → nat_eq n n ≡ true
nat_eq_refl n = ground arith

send-served :
    (q : QueueRuntime) (sess : ConsumerSession) (delivery : Delivery)
    → lookup sess.id q.consumer_sessions
      ≡ some (record sess { unacked_count = sess.unacked_count +ℤ pos 1 })
    → send_delivery q sess delivery ≡ served_runtime q sess delivery
unfolding send_delivery
send-served q sess delivery e = rw (e, send_delivery, nat_eq_refl sess.address) refl

dispatch-sends :
    {W : Type 0}
    → ⦃wal : Wal W⦄
    → (pick : Bool) (q : QueueRuntime) (s : Shared W) (sess : ConsumerSession) (delivery : Delivery)
    → sess.closed ≡ false
    → has_room sess ≡ true
    → dispatch pick q s sess delivery ≡ (send_delivery q sess delivery, s)
unfolding dispatch
dispatch-sends pick q s sess delivery is_open room =
    ap
      (λ (closed : Bool).
        if closed && (pick || not (has_room sess))
        then cancel_reservation q s delivery
        else if has_room sess
        then (send_delivery q sess delivery, s)
        else cancel_reservation q s delivery)
      is_open
    ∙ ap
        (λ (r : Bool).
          if r then (send_delivery q sess delivery, s) else cancel_reservation q s delivery)
        room

module _ {W : Type 0} ⦃wal : Wal W⦄ (ctx : Context) (env : Surroundings)
    (live : ctx.before ≡ false) where
  -- reserveDelivery of a queue's runtime has chosen a session that is not closed and whose channel has
  -- room, for a delivery with a new token, and the distributor has sent it on. On a connection whose
  -- handler waits for a request and whose goroutine forwards that session, with nothing to read and a
  -- live context, the goroutine forwards and Receive returns what the session had and then the message
  -- of the delivery, with that token, last; and the message is in flight under the token.
  pub delivery-Received :
      (b : Broker W) (name : String) (q q1 : QueueRuntime) (s1 : Shared W) (clock : ℕ → ℕ)
      (token : String) (now : ℕ) (sess : ConsumerSession) (delivery : Delivery) (pick : Bool)
      → reserve_delivery q b.shared clock token now ≡ (q1, s1, some (sess, delivery))
      → sess.closed ≡ false
      → has_room sess ≡ true
      → let (q2, s2) = dispatch pick q1 s1 sess delivery in
        let c = put_queue (record b { shared = s2 }) (queue_key name) q2 in
        let sub = some (forwarder name sess.id sess.address) in
        (b' : Broker W) × (pull ctx (length sess.deliveries + 1) (env, (c, idle sub)) ≡ (
          (env, (b', idle sub)),
          map (λ d. inr (of_delivery d)) (sess.deliveries ++ delivery ∷ []),
        ))
        × (delivery.ack_token ≡ token)
        × (Inflight.get q2.in_flight_manager token ≡ some (in_flight_for delivery now))
  unfolding reserve_delivery
  delivery-Received b name q q1 s1 clock token now sess delivery pick e is_open room =
      let handed : Handed token now q1 (sess, delivery) =
        subst (IsHanded token now) e
          (reserve_live-IsHanded token now (dead_letter_expired_messages q b.shared clock))
          (sess, delivery) refl in
      let c =
        put_queue (record b { shared = s1 }) (queue_key name) (served_runtime q1 sess delivery) in
      let (b', q', pulled, _, _) =
        deliveries-Received ctx env live (sess.deliveries ++ delivery ∷ []) c name sess.id
          (served_runtime q1 sess delivery) (served_session sess delivery)
          (rw (lookup-insert, eq_refl) refl) (rw (lookup-insert, eq_refl) refl) in
      rw
        (
          dispatch-sends pick q1 s1 sess delivery is_open room,
          send-served q1 sess delivery handed.session,
        )
        (
          b',
          rw (length-append sess.deliveries (delivery ∷ [])) at pulled,
          handed.named,
          handed.flying,
        )
