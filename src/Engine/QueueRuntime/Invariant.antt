-- ===== src/Engine/QueueRuntime/Invariant.antt =====
-- The invariant of a queue runtime: its ring and its in-flight map are well formed, and the counters
-- account for every message that was produced. Here for the states that the methods pass through;
-- `Balance` has it for the methods.
use dsend.Base.{ℕ, ◌+◌, ◌<◌, ap, String, none, some, [], ◌∷◌, ◌≡◌, arith, length, length-append}
use dsend.Model.{Message, Delivery, InFlightMessage}
use dsend.Queue.RingBuffer.Contents as Contents
use dsend.Queue.RingBuffer.Contents.{contents, push_lem, pop_lem}
use dsend.Queue.Dlq
use dsend.Inflight
use dsend.Inflight.{Manager}
use dsend.Inflight.Laws as Flight
use dsend.Session.{ConsumerSession}
use dsend.Engine.QueueRuntime.{QueueRuntime}
use dsend.Engine.QueueRuntime.Produce.{pushed, acked}
use dsend.Engine.QueueRuntime.Deliver.{head_dropped, handed_out}
use dsend.Engine.QueueRuntime.Redelivery.{given_up, put_back, retried}

pub record Inv (q : QueueRuntime) : Type 0 where
  pub ring : Contents.IsValid q.queue
  pub flight : Flight.IsValid q.in_flight_manager
  pub balance :
      q.produced_count
      ≡ length (contents q.queue)
        + Inflight.size q.in_flight_manager
        + q.acked_count
        + q.deadlettered_count
  pub dead_letters : length q.dead_letter_queue.messages ≡ q.deadlettered_count

-- There is room for one more message.
abbrev pub HasRoom : QueueRuntime → Type 0
HasRoom q = length (contents q.queue) < q.queue.cap

module _ {q : QueueRuntime} (v : Inv q) where
  pub pushed-Inv : (message : Message) → HasRoom q → Inv (pushed q message)
  unfolding pushed
  pushed-Inv message room =
      let (ring, grown, _) = push_lem message v.ring room in
      record {
        ring = ring;
        flight = v.flight;
        balance =
            omega
              (arith, v.balance, ap length grown, length-append (contents q.queue) (message ∷ []));
        dead_letters = v.dead_letters;
      }

  pub acked-Inv :
      (token : String) (item : InFlightMessage)
      → Inflight.get q.in_flight_manager token ≡ some item
      → Inv (acked q token item)
  unfolding acked
  acked-Inv token item e =
      let taken = Flight.remove_lem q.in_flight_manager token item v.flight e in
      record {
        ring = v.ring;
        flight = taken.1;
        balance = omega (arith, v.balance, taken.3);
        dead_letters = v.dead_letters;
      }

  pub head_dropped-Inv : 0 < length (contents q.queue) → Inv (head_dropped q)
  unfolding head_dropped Dlq.push
  head_dropped-Inv some_message =
      let (ring, front, _, _) = pop_lem v.ring some_message in
      record {
        ring = ring;
        flight = v.flight;
        balance = omega (arith, v.balance, ap length front);
        dead_letters =
            omega (arith, v.dead_letters, length-append q.dead_letter_queue.messages (_ ∷ []));
      }

  pub handed_out-Inv :
      (sess : ConsumerSession) (token : String) (now : ℕ)
      → 0 < length (contents q.queue)
      → Inflight.get q.in_flight_manager token ≡ none
      → Inv (handed_out q sess token now)
  unfolding handed_out
  handed_out-Inv sess token now some_message fresh =
      let (ring, front, _, _) = pop_lem v.ring some_message in
      let added = Flight.add_lem q.in_flight_manager token _ sess.id now v.flight fresh in
      record {
        ring = ring;
        flight = added.0;
        balance = omega (arith, v.balance, ap length front, added.2);
        dead_letters = v.dead_letters;
      }

  module _ (item : Delivery) (entry : InFlightMessage)
      (e : Inflight.get q.in_flight_manager item.ack_token ≡ some entry) where
    pub given_up-Inv : Inv (given_up q item)
    unfolding given_up Dlq.push
    given_up-Inv =
        let taken = Flight.remove_lem q.in_flight_manager item.ack_token entry v.flight e in
        record {
          ring = v.ring;
          flight = taken.1;
          balance = omega (arith, v.balance, taken.3);
          dead_letters = omega (
            arith,
            v.dead_letters,
            length-append q.dead_letter_queue.messages (item.message ∷ []),
          );
        }

    pub put_back-Inv : HasRoom q → Inv (put_back q item)
    unfolding put_back
    put_back-Inv room =
        let taken = Flight.remove_lem q.in_flight_manager item.ack_token entry v.flight e in
        let (ring, grown, _) = push_lem (retried item.message) v.ring room in
        record {
          ring = ring;
          flight = taken.1;
          balance = omega (
            arith,
            v.balance,
            taken.3,
            ap length grown,
            length-append (contents q.queue) (retried item.message ∷ []),
          );
          dead_letters = v.dead_letters;
        }
