-- ===== src/Engine/QueueRuntime/Steps.antt =====
-- The queue runtime as a state machine: each method under its lock is a step, in any interleaving of
-- producers, consumers, the distributor and the two workers.
use mathlib.Core.List.{Permᴰ}
use dsend.Base.{
  ℕ, ℤ, String, Bool, Option, none, some, List, [], ◌∷◌, ◌≡◌, refl, ap, arith, Mem, if_cases,
  Option-cases, inl, inr, lookup, insert, nat_eq,
}
use dsend.Model.{Message, Delivery}
use dsend.Queue.RingBuffer.{RingBuffer}
use dsend.Queue.Dlq.{Dlq}
use dsend.Inflight
use dsend.Inflight.{Manager}
use dsend.Session.{ConsumerSession}
use dsend.Storage.{Wal, IsWal}
use dsend.Storage.Durable.{ids}
use dsend.Engine.{Shared, Error, TokenHook}
use dsend.Engine.QueueRuntime.{
  QueueRuntime, stamp, subscribe, unsubscribe, shutdown, close_if_empty, drop_sessions,
}
use dsend.Engine.QueueRuntime.Produce.{publish, ack}
use dsend.Engine.QueueRuntime.Deliver.{
  reserve_delivery, send_delivery, take_delivery, dead_letter_expired_messages, cancel_reservation,
}
use dsend.Engine.QueueRuntime.Redelivery.{process_expired_messages}
use dsend.Engine.QueueRuntime.Invariant.{HasRoom}
use dsend.Engine.QueueRuntime.Tracks.{IsTracked}
use dsend.Engine.QueueRuntime.Durable.{live}
use dsend.Engine.QueueRuntime.Overflow.{cancel-Sound}
use dsend.Engine.QueueRuntime.Sound.{
  State, after_publish, Sound, publish-Sound, ack-Sound, reserve_delivery-Sound,
  process_expired_messages-Sound, dead_letter_rounds-Sound,
}

-- The fields that `Sound` speaks of, and the hooks.
abbrev pub Core : Type 0
Core = String × RingBuffer × Manager × Dlq × ℕ × ℕ × ℕ × TokenHook × TokenHook

abbrev pub core : QueueRuntime → Core
core q = (
  q.name, q.queue, q.in_flight_manager, q.dead_letter_queue, q.produced_count, q.acked_count,
  q.deadlettered_count, q.register_token, q.remove_token,
)

module _ (q : QueueRuntime) where
  pub core-send :
      (sess : ConsumerSession) (delivery : Delivery) → core (send_delivery q sess delivery) ≡ core q
  unfolding send_delivery
  core-send sess delivery = elim (Option-cases (lookup sess.id q.consumer_sessions)) [
    | inl e ↦ rw (e, send_delivery)
    | inr (current, e) ↦
        rw (e, send_delivery)
          (if_cases (λ (q' : QueueRuntime). core q' ≡ core q) (nat_eq current.address sess.address)
            (λ _. refl) (λ _. refl))
  ]

  pub core-take_delivery :
      (id : String) (address : ℕ) → core (take_delivery q id address).0 ≡ core q
  unfolding take_delivery
  core-take_delivery id address = elim (Option-cases (lookup id q.consumer_sessions)) [
    | inl e ↦ rw (e, take_delivery) refl
    | inr (current, e) ↦
        rw (e, take_delivery)
          (if_cases (λ (r : QueueRuntime × Option Delivery). core r.0 ≡ core q)
            (nat_eq current.address address) (λ _. received current current.deliveries) (λ _. refl))
  ]
    where
      received :
          (current : ConsumerSession) (deliveries : List Delivery)
          → core
              (elim deliveries as (λ _. QueueRuntime × Option Delivery) [
                | [] ↦ (q, none)
                | delivery ∷ rest ↦ (
                  record q {
                    consumer_sessions =
                        insert id (record current { deliveries = rest }) q.consumer_sessions;
                  },
                  some delivery,
                )
              ]).0
            ≡ core q
      received current [] = refl
      received current (delivery ∷ rest) = refl

  pub core-subscribe : (sess : ConsumerSession) → core (subscribe q sess).0 ≡ core q
  unfolding subscribe
  core-subscribe sess =
      if_cases (λ (r : QueueRuntime × Option Error). core r.0 ≡ core q) q.closed (λ _. refl)
        (λ _. elim (Option-cases (lookup sess.id q.consumer_sessions)) [
          | inl e ↦ rw e
          | inr (current, e) ↦ rw e
        ])

  pub core-unsubscribe : (id : String) → core (unsubscribe q id) ≡ core q
  unfolding unsubscribe
  core-unsubscribe id = elim (Option-cases (lookup id q.consumer_sessions)) [
    | inl e ↦ rw (e, unsubscribe)
    | inr (sess, e) ↦ rw (e, unsubscribe)
  ]

  pub core-close_if_empty : core (close_if_empty q).0 ≡ core q
  unfolding close_if_empty drop_sessions
  core-close_if_empty =
      if_cases (λ (r : QueueRuntime × Bool). core r.0 ≡ core q) _ (λ _. refl) (λ _. refl)

module _ {W : Type 0} ⦃wal : Wal W⦄ where
  -- One step. A producer's message gets an ID that no live message has, and a delivery a token that is
  -- not in flight and has no owner, as `uuid.NewString` provides; a range over a map takes some order.
  -- A cancellation of a reservation comes with room in the queue, and while the delivery is still in
  -- flight under its token; `Overflow` has the cancellation on a full queue.
  pub data Step : State W → State W → Type 0 where
    publishes :
        (q : QueueRuntime) (s : Shared W) (message : Message) (ttl : ℤ) (fresh_id : String)
        (now : ℕ)
        → ¬ Mem (stamp message ttl fresh_id now).id (ids (live q))
        → Step (q, s) (after_publish (q, s) (publish q s message ttl fresh_id now))
    acks :
        (q : QueueRuntime) (s : Shared W) (token : String)
        → Step (q, s) ((ack q s token).0, (ack q s token).1)
    reserves :
        (q : QueueRuntime) (s : Shared W) (clock : ℕ → ℕ) (token : String) (now : ℕ)
        → Inflight.get q.in_flight_manager token ≡ none
        → lookup token s.token_owners ≡ none
        → Step
            (q, s)
            ((reserve_delivery q s clock token now).0, (reserve_delivery q s clock token now).1)
    sends :
        (q : QueueRuntime) (s : Shared W) (sess : ConsumerSession) (delivery : Delivery)
        → Step (q, s) (send_delivery q sess delivery, s)
    cancels :
        (q : QueueRuntime) (s : Shared W) (delivery : Delivery)
        → HasRoom q
        → IsTracked q.in_flight_manager delivery
        → Step (q, s) (cancel_reservation q s delivery)
    receives :
        (q : QueueRuntime) (s : Shared W) (id : String) (address : ℕ)
        → Step (q, s) ((take_delivery q id address).0, s)
    expires :
        (q : QueueRuntime) (s : Shared W) (clock : ℕ → ℕ)
        → Step
            (q, s)
            ((dead_letter_expired_messages q s clock).0, (dead_letter_expired_messages q s clock).1)
    redelivers :
        (q : QueueRuntime) (s : Shared W) (now : String → ℕ) (order : List Delivery → List Delivery)
        → ((items : List Delivery) → Permᴰ items (order items))
        → Step (q, s) (process_expired_messages q s now order)
    subscribes :
        (q : QueueRuntime) (s : Shared W) (sess : ConsumerSession)
        → Step (q, s) ((subscribe q sess).0, s)
    unsubscribes :
        (q : QueueRuntime) (s : Shared W) (id : String) → Step (q, s) (unsubscribe q id, s)
    shuts_down : (q : QueueRuntime) (s : Shared W) → Step (q, s) (shutdown q, s)
    closes : (q : QueueRuntime) (s : Shared W) → Step (q, s) ((close_if_empty q).0, s)

  pub data Reach (t : State W) : State W → Type 0 where
    here : Reach t t
    next : {u w : State W} → Reach t u → Step u w → Reach t w

  module _ (laws : IsWal wal) where
    same-Sound :
        {q q' : QueueRuntime} {s : Shared W}
        → core q' ≡ core q
        → Sound laws (q, s)
        → Sound laws (q', s)
    same-Sound e t =
        let queue = ap (λ (c : Core). c.1) e in
        let flight = ap (λ (c : Core). c.2) e in
        record {
          inv = record {
            ring = rw queue t.inv.ring;
            flight = rw flight t.inv.flight;
            balance =
                rw (queue, flight)
                  (omega (
                    arith,
                    t.inv.balance,
                    ap (λ (c : Core). c.4) e,
                    ap (λ (c : Core). c.5) e,
                    ap (λ (c : Core). c.6) e,
                  ));
            dead_letters =
                rw (ap (λ (c : Core). c.3) e)
                  (omega (arith, t.inv.dead_letters, ap (λ (c : Core). c.6) e));
          };
          durable = rw (queue, flight, ap (λ (c : Core). c.0) e) t.durable;
        }

    -- Every step keeps the runtime sound.
    pub Step-Sound : {t u : State W} → Step t u → Sound laws t → Sound laws u
    unfolding dead_letter_expired_messages shutdown drop_sessions
    Step-Sound (publishes q s message ttl fresh_id now fresh) t =
        publish-Sound laws q s message ttl fresh_id now t fresh
    Step-Sound (acks q s token) t = ack-Sound laws q s token t
    Step-Sound (reserves q s clock token now fresh unowned) t =
        reserve_delivery-Sound laws q s clock token now t fresh
    Step-Sound (sends q s sess delivery) t = same-Sound (core-send q sess delivery) t
    Step-Sound (cancels q s delivery room tracked) t = cancel-Sound laws q s delivery t room tracked
    Step-Sound (receives q s id address) t = same-Sound (core-take_delivery q id address) t
    Step-Sound (expires q s clock) t = dead_letter_rounds-Sound laws _ clock 0 q s t
    Step-Sound (redelivers q s now order shuffles) t =
        process_expired_messages-Sound laws q s now order shuffles t
    Step-Sound (subscribes q s sess) t = same-Sound (core-subscribe q sess) t
    Step-Sound (unsubscribes q s id) t = same-Sound (core-unsubscribe q id) t
    Step-Sound (shuts_down q s) t = same-Sound refl t
    Step-Sound (closes q s) t = same-Sound (core-close_if_empty q) t

    -- From a sound state every sequence of steps, in any interleaving, leads to a sound state, if
    -- cancelReservation is called only while the queue has room and the delivery is still in flight
    -- under its token, a produced message gets an ID that no live message has, and a reservation a token
    -- that is neither in flight nor owned: the ring
    -- and the in-flight map are well formed, every produced message is counted once as queued, in
    -- flight, acknowledged or dead-lettered, the dead letter queue has as many messages as are counted,
    -- and the messages pending in the log are the queued and the in-flight ones, with no ID twice.
    pub Reach-Sound : {t u : State W} → Sound laws t → Reach t u → Sound laws u
    Reach-Sound t here = t
    Reach-Sound t (next r st) = Step-Sound st (Reach-Sound t r)
