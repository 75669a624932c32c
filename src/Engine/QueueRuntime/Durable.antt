-- ===== src/Engine/QueueRuntime/Durable.antt =====
-- The log keeps up with the queue runtime: a restart would put back exactly the messages that are
-- queued or in flight.
use mathlib.Core.List.Perm
use mathlib.Core.List.{perm_middle, perm_append_comm}
use dsend.Base.{
  ℕ, ◌<◌, String, none, some, List, [], ◌∷◌, ◌++◌, ◌≡◌, refl, inl, inr, length, Perm, Mem,
  append_assoc,
}
use dsend.Model.{Message, Delivery, Record, InFlightMessage}
use dsend.Queue.RingBuffer as Ring
use dsend.Queue.RingBuffer.Contents.{contents, push_lem, pop_lem}
use dsend.Inflight
use dsend.Inflight.Laws as Flight
use dsend.Session.{ConsumerSession}
use dsend.Storage.Durable.{IsDurable, ids, reorder, add_published, remove_settled, replace_requeued}
use dsend.Engine.QueueRuntime.{QueueRuntime}
use dsend.Engine.QueueRuntime.Produce.{pushed, acked, published_record, acknowledged_record}
use dsend.Engine.QueueRuntime.Deliver.{head_dropped, handed_out, dead_lettered_record}
use dsend.Engine.QueueRuntime.Redelivery.{given_up, put_back, retried, requeued_record}
use dsend.Engine.QueueRuntime.Invariant.{Inv, HasRoom}

-- The messages that the runtime holds: queued, then in flight.
abbrev pub live : QueueRuntime → List Message
live q = contents q.queue ++ Flight.messages q.in_flight_manager

module _ {q : QueueRuntime} (v : Inv q) where
  pub live-pushed :
      (message : Message) → HasRoom q → Perm (live (pushed q message)) (message ∷ live q)
  unfolding pushed
  live-pushed message room =
      let (_, grown, _) = push_lem message v.ring room in
      rw (grown, append_assoc)
        (perm_middle (contents q.queue) (Flight.messages q.in_flight_manager))

  live-removed :
      (token : String) (item : InFlightMessage)
      → Inflight.get q.in_flight_manager token ≡ some item
      → Perm (live q) (
          item.message
          ∷ (contents q.queue ++ Flight.messages (Inflight.remove q.in_flight_manager token).1))
  live-removed token item e =
      let taken = Flight.remove_lem q.in_flight_manager token item v.flight e in
      Perm.trans (Perm.append_left (contents q.queue) taken.2) (perm_middle (contents q.queue) _)

  live-head_dropped :
      0 < length (contents q.queue) → live q ≡ Ring.peek q.queue ∷ live (head_dropped q)
  unfolding head_dropped
  live-head_dropped some_message =
      let (_, front, shown, _) = pop_lem v.ring some_message in rw (front, shown)

  live-handed_out :
      (sess : ConsumerSession) (token : String) (now : ℕ)
      → 0 < length (contents q.queue)
      → Inflight.get q.in_flight_manager token ≡ none
      → Perm (live q) (live (handed_out q sess token now))
  unfolding handed_out
  live-handed_out sess token now some_message fresh =
      let (_, front, _, _) = pop_lem v.ring some_message in
      let message = (Ring.pop q.queue).0 in
      let added = Flight.add_lem q.in_flight_manager token message sess.id now v.flight fresh in
      rw (front, added.1, ← append_assoc) (perm_append_comm (message ∷ []) _)

module _ {q : QueueRuntime} (v : Inv q) {log : List Record}
    (d : IsDurable log q.name (live q)) where
  pub pushed-IsDurable :
      (message : Message)
      → HasRoom q
      → ¬ Mem message.id (ids (live q))
      → IsDurable (log ++ published_record q message ∷ []) q.name (live (pushed q message))
  pushed-IsDurable message room fresh =
      add_published d _ refl refl fresh (live-pushed v message room)

  pub acked-IsDurable :
      (token : String) (item : InFlightMessage)
      → Inflight.get q.in_flight_manager token ≡ some item
      → IsDurable (log ++ acknowledged_record q item ∷ []) q.name (live (acked q token item))
  unfolding acked
  acked-IsDurable token item e =
      remove_settled d _ refl item.message (inl refl) refl (live-removed v token item e)

  pub head_dropped-IsDurable :
      0 < length (contents q.queue)
      → IsDurable
          (log ++ dead_lettered_record q (Ring.peek q.queue) ∷ [])
          q.name
          (live (head_dropped q))
  head_dropped-IsDurable some_message =
      remove_settled d _ refl (Ring.peek q.queue) (inr refl) refl
        (rw (live-head_dropped v some_message) (Perm.refl _))

  pub handed_out-IsDurable :
      (sess : ConsumerSession) (token : String) (now : ℕ)
      → 0 < length (contents q.queue)
      → Inflight.get q.in_flight_manager token ≡ none
      → IsDurable log q.name (live (handed_out q sess token now))
  handed_out-IsDurable sess token now h fresh = reorder d (live-handed_out v sess token now h fresh)

  module _ (item : Delivery) (entry : InFlightMessage)
      (e : Inflight.get q.in_flight_manager item.ack_token ≡ some entry)
      (same : entry.message ≡ item.message) where
    taken_out : Perm (live q) (
        item.message
        ∷ (contents q.queue
            ++ Flight.messages (Inflight.remove q.in_flight_manager item.ack_token).1))
    taken_out = rw (← same) (live-removed v item.ack_token entry e)

    pub given_up-IsDurable :
        IsDurable (log ++ dead_lettered_record q item.message ∷ []) q.name (live (given_up q item))
    unfolding given_up
    given_up-IsDurable = remove_settled d _ refl item.message (inr refl) refl taken_out

    pub put_back-IsDurable :
        HasRoom q → IsDurable (log ++ requeued_record q item ∷ []) q.name (live (put_back q item))
    unfolding put_back retried
    put_back-IsDurable room =
        let (_, grown, _) = push_lem (retried item.message) v.ring room in
        replace_requeued d _ refl item.message _ refl refl refl taken_out
          (rw (grown, append_assoc) (perm_middle (contents q.queue) _))
