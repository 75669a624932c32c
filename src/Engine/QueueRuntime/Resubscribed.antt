-- ===== src/Engine/QueueRuntime/Resubscribed.antt =====
-- A session that comes back under its ID while messages of the one before it are in flight.
use text.Mathlib.TextPositions.{eq_refl}
use dsend.Base.{
  Map, ℕ, pos, ◌-ℤ◌, String, Bool, true, false, Option, none, some, ◌++◌, [], ◌∷◌, ◌≡◌, refl, ap,
  ◌∙◌, lookup, insert, lookup-insert, if◌then◌else◌,
}
use dsend.Model.{InFlightMessage}
use dsend.Inflight
use dsend.Session.{ConsumerSession, new_consumer_session, is_eligible}
use dsend.Storage.{Wal}
use dsend.Engine.{Shared, Error, err_broker_closed}
use dsend.Engine.QueueRuntime.{QueueRuntime, Outcome, subscribe, release_slot}
use dsend.Engine.QueueRuntime.Produce.{ack, acked, acked_lem, acknowledged_record}

-- the runtime with the new session
abbrev pub joined : QueueRuntime → ConsumerSession → QueueRuntime
joined q sess = record q {
  consumer_sessions = insert sess.id sess q.consumer_sessions;
  consumer_order = q.consumer_order ++ sess.id ∷ [];
  notify_distributor = true;
}

-- Subscribe of the runtime, with what `closed` and the map of sessions say
abbrev subscribe_at :
    QueueRuntime → ConsumerSession → Bool → Option ConsumerSession → QueueRuntime × Option Error
subscribe_at q sess closed found =
    if closed
    then (q, some err_broker_closed)
    else elim found [ some _ ↦ (q, none) | none ↦ (joined q sess, none) ]

subscribe-joined :
    (q : QueueRuntime) (sess : ConsumerSession)
    → q.closed ≡ false
    → lookup sess.id q.consumer_sessions ≡ none
    → subscribe q sess ≡ (joined q sess, none)
unfolding subscribe
subscribe-joined q sess is_open gone =
    ap (λ closed. subscribe_at q sess closed (lookup sess.id q.consumer_sessions)) is_open
    ∙ ap (subscribe_at q sess false) gone

slot_back :
    (id : String) (sess : ConsumerSession) (sessions : Map ConsumerSession)
    → lookup id sessions ≡ some sess
    → lookup id (release_slot id sessions)
      ≡ some (record sess { unacked_count = sess.unacked_count -ℤ pos 1 })
slot_back id sess sessions e = rw (e, release_slot, lookup-insert, eq_refl) refl

-- The slot that an Ack gives back to a session that the map has.
released :
    (q : QueueRuntime) (sess : ConsumerSession) (token : String) (item : InFlightMessage)
    → item.consumer_id ≡ sess.id
    → lookup sess.id (acked (joined q sess) token item).consumer_sessions
      ≡ some (record sess { unacked_count = sess.unacked_count -ℤ pos 1 })
unfolding acked
released q sess token item mine =
    ap (λ id. lookup sess.id (release_slot id (joined q sess).consumer_sessions)) mine
    ∙ slot_back sess.id sess (insert sess.id sess q.consumer_sessions)
        (rw (lookup-insert, eq_refl) refl)

-- In an open runtime that has no session with the ID, but a message in flight that a session with that ID
-- was given: the session subscribes again, and then the message is acknowledged, and the log takes the
-- record. The new session then has one message less than none to acknowledge, so that it is eligible
-- even under a limit of no message at all.
pub resubscribe-Negative :
    {W : Type 0}
    → ⦃wal : Wal W⦄
    → (q : QueueRuntime) (s : Shared W) (id token : String) (address : ℕ) (item : InFlightMessage)
    → q.closed ≡ false
    → lookup id q.consumer_sessions ≡ none
    → Inflight.get q.in_flight_manager token ≡ some item
    → item.consumer_id ≡ id
    → (wal.append s.wal (acknowledged_record q item)).1 ≡ true
    → let q' = (ack (subscribe q (new_consumer_session address id)).0 s token).0 in
      (sess : ConsumerSession) × (lookup id q'.consumer_sessions ≡ some sess)
      × (sess.unacked_count ≡ pos 0 -ℤ pos 1)
      × (is_eligible sess (pos 0) ≡ true)
unfolding new_consumer_session is_eligible ◌-ℤ◌
resubscribe-Negative {W} ⦃wal⦄ q s id token address item is_open gone here mine logged =
    let sess = new_consumer_session address id in
    (
      record sess { unacked_count = pos 0 -ℤ pos 1 },
      ap (λ (o : QueueRuntime × Option Error). lookup id (ack o.0 s token).0.consumer_sessions)
            (subscribe-joined q sess is_open gone)
          ∙ ap (λ (o : Outcome W). lookup id o.0.consumer_sessions)
              (acked_lem (joined q sess) s token item here logged)
          ∙ released q sess token item mine,
      refl,
      refl,
    )
