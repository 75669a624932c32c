-- ===== src/Engine/Broker/Calls.antt =====
-- Subscribe, Unsubscribe and Ack of the broker, each a step of one runtime.
use dsend.Base.{String, inl, inr, lookup, Option-cases}
use dsend.Session.{ConsumerSession}
use dsend.Storage.{Wal, IsWal}
use dsend.Engine.QueueRuntime.Steps as Runtime
use dsend.Engine.Broker.{Broker}
use dsend.Engine.Broker.Messages.{queue_key, subscribe, unsubscribe, ack}
use dsend.Engine.Broker.Publishing.{queue_cases}
use dsend.Engine.Broker.Sound.{Sound}
use dsend.Engine.Broker.Steps.{works, Reach, here, next, broker-Sound}

module _ {W : Type 0} ⦃wal : Wal W⦄ (b : Broker W) where
  pub subscribe-Reach :
      (name : String) (session : ConsumerSession) → Reach b (subscribe b name session).0
  unfolding subscribe
  subscribe-Reach name session = elim (queue_cases b name) [
    | inl (err, e) ↦ rw (e, subscribe) here
    | inr (q, e, found) ↦
        rw (e, subscribe)
          (next here
            (works b (queue_key name) q _ b.shared found (Runtime.subscribes q b.shared session)))
  ]

  pub unsubscribe-Reach : (name id : String) → Reach b (unsubscribe b name id)
  unfolding unsubscribe
  unsubscribe-Reach name id = elim (queue_cases b name) [
    | inl (err, e) ↦ rw (e, unsubscribe) here
    | inr (q, e, found) ↦
        rw (e, unsubscribe)
          (next here
            (works b (queue_key name) q _ b.shared found (Runtime.unsubscribes q b.shared id)))
  ]

  pub ack-Reach : (token : String) → Reach b (ack b token).0
  unfolding ack
  ack-Reach token = elim (Option-cases (lookup token b.shared.token_owners)) [
    | inl e ↦ rw (e, ack) here
    | inr (name, owned) ↦ elim (Option-cases (lookup name b.queues)) [
      | inl e ↦ rw (owned, e, ack) here
      | inr (q, found) ↦
          rw (owned, found, ack)
            (next here (works b name q _ _ found (Runtime.acks q b.shared token)))
    ]
  ]

  -- In a sound broker a call of Subscribe, of Unsubscribe or of Ack, whatever its arguments, leaves the
  -- broker sound.
  pub calls-Sound :
      (laws : IsWal wal) (name id token : String) (session : ConsumerSession)
      → Sound laws b
      → Sound laws (subscribe b name session).0
        × Sound laws (unsubscribe b name id)
        × Sound laws (ack b token).0
  calls-Sound laws name id token session t = (
    broker-Sound laws t (subscribe-Reach name session),
    broker-Sound laws t (unsubscribe-Reach name id),
    broker-Sound laws t (ack-Reach token),
  )
