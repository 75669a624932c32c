-- ===== src/Engine/QueueRuntime/Recovery.antt =====
-- A restart: the runtime that NewQueueRuntime builds from the pending messages of the log.
use mathlib.Core.List.Perm
use dsend.Base.{
  ℕ, ◌+◌, ◌≤◌, ◌<◌, max, pos_part, List, [], ◌∷◌, ◌++◌, ◌≡◌, refl, sym, ap, ◌∙◌, arith, length,
  length-append, append_assoc, append-nil, Perm, Nodup, String,
}
use dsend.Model.{Message}
use dsend.Queue.RingBuffer as Ring
use dsend.Queue.RingBuffer.{RingBuffer}
use dsend.Queue.RingBuffer.Contents.{
  contents, push_lem, contents-new, new_ring_buffer_queue-IsValid, cap-new,
}
use dsend.Queue.Dlq.{new_dlq}
use dsend.Inflight.{new_manager}
use dsend.Inflight.Laws as Flight
use dsend.Inflight.Laws.{new_manager_lem}
use dsend.Storage.{pending, Wal, IsWal}
use dsend.Storage.Durable.{ids}
use dsend.Engine.{Config, Shared}
use dsend.Engine.QueueRuntime.{QueueRuntime, bare_runtime, push_recovered, new_queue_runtime}
use dsend.Engine.QueueRuntime.Invariant.{Inv}
use dsend.Engine.QueueRuntime.Durable.{live}
use dsend.Engine.QueueRuntime.Sound.{Sound}

-- What the loop of NewQueueRuntime has done when it ends.
record Recovered (q : QueueRuntime) (messages : List Message) (q' : QueueRuntime) : Type 0 where
  inv : Inv q'
  queued : contents q'.queue ≡ contents q.queue ++ messages
  flight : q'.in_flight_manager ≡ q.in_flight_manager
  name : q'.name ≡ q.name

push_recovered-Recovered :
    (q : QueueRuntime) (messages : List Message)
    → Inv q
    → length (contents q.queue) + length messages ≤ q.queue.cap
    → Recovered q messages (push_recovered q messages)
unfolding push_recovered
push_recovered-Recovered q [] v room = record {
  inv = v;
  queued = sym (append-nil _);
  flight = refl;
  name = refl;
}
push_recovered-Recovered q (m ∷ messages) v room =
    let (ring, grown, cap) = push_lem m v.ring (omega arith) in
    let longer = ap length grown ∙ length-append (contents q.queue) (m ∷ []) in
    let q₁ : QueueRuntime = record q {
      queue = Ring.push q.queue m;
      produced_count = q.produced_count + 1;
    } in
    let v₁ : Inv q₁ = record {
      ring = ring;
      flight = v.flight;
      balance = omega (arith, v.balance, longer);
      dead_letters = v.dead_letters;
    } in
    let rest = push_recovered-Recovered q₁ messages v₁ (omega (arith, longer, cap)) in
    record {
      inv = rest.inv;
      queued = rest.queued ∙ rw (grown, append_assoc);
      flight = rest.flight;
      name = rest.name;
    }

bare-Inv :
    (name : String) (cfg : Config) (capacity : ℕ)
    → 0 < capacity
    → Inv (bare_runtime name cfg (Ring.new_ring_buffer_queue capacity) new_dlq new_manager)
unfolding bare_runtime new_dlq
bare-Inv name cfg capacity room = record {
  ring = new_ring_buffer_queue-IsValid capacity room;
  flight = new_manager_lem.0;
  balance = omega (arith, ap length (contents-new capacity), new_manager_lem.2);
  dead_letters = refl;
}

-- The runtime that newQueueRuntime of the broker makes for a queue.
abbrev pub restarted : String → Config → List Message → QueueRuntime
restarted name cfg messages =
    new_queue_runtime name cfg messages
      (Ring.new_ring_buffer_queue (max (pos_part cfg.queue_size) (length messages))) new_dlq
      new_manager

module _ (name : String) (cfg : Config) (messages : List Message)
    (some_room : 0 < max (pos_part cfg.queue_size) (length messages)) where
  -- The runtime of a queue that is made from a list of messages, with room for at least one, keeps the
  -- invariant, has the messages in their order, and has nothing in flight.
  pub restarted_lem :
      Inv (restarted name cfg messages)
      × (contents (restarted name cfg messages).queue ≡ messages)
      × (Flight.messages (restarted name cfg messages).in_flight_manager ≡ [])
      × ((restarted name cfg messages).name ≡ name)
  unfolding new_queue_runtime
  restarted_lem = (
    record {
      ring = loop.inv.ring;
      flight = loop.inv.flight;
      balance = loop.inv.balance;
      dead_letters = loop.inv.dead_letters;
    },
    loop.queued ∙ ap (λ xs. xs ++ messages) (contents-new capacity),
    rw loop.flight (new_manager_lem.1),
    loop.name,
  )
    where
      capacity : ℕ
      capacity = max (pos_part cfg.queue_size) (length messages)

      start : QueueRuntime
      start = bare_runtime name cfg (Ring.new_ring_buffer_queue capacity) new_dlq new_manager

      start_inv : Inv start
      start_inv = bare-Inv name cfg capacity some_room

      loop : Recovered start messages (push_recovered start messages)
      loop =
          push_recovered-Recovered start messages start_inv
            (omega (arith, ap length (contents-new capacity), cap-new capacity))

module _ {W : Type 0} ⦃wal : Wal W⦄ (laws : IsWal wal) where
  -- A runtime that is built from the pending messages of a log in which no pending message of the queue
  -- has the ID of another, with a positive queue size, is sound for that log.
  pub restarted-Sound :
      (name : String) (s : Shared W) (cfg : Config)
      → 0 < pos_part cfg.queue_size
      → Nodup (ids (pending (laws.log s.wal) name))
      → Sound laws (restarted name cfg (pending (laws.log s.wal) name), s)
  restarted-Sound name s cfg room distinct =
      let messages = pending (laws.log s.wal) name in
      let (inv, queued, flight, same) = restarted_lem name cfg messages (omega arith) in
      record {
        inv = inv;
        durable =
            rw (same, queued, flight, append-nil)
              (record { same = Perm.refl _; distinct = distinct });
      }

  -- A restart with a positive queue size from a sound state: the new runtime queues the messages that were queued or in flight, in some order and no others, and is sound for
  -- the same log.
  pub recovery :
      (q : QueueRuntime) (s : Shared W) (cfg : Config)
      → 0 < pos_part cfg.queue_size
      → Sound laws (q, s)
      → let q' = restarted q.name cfg (pending (laws.log s.wal) q.name) in
        Perm (contents q'.queue) (live q) × Sound laws (q', s)
  recovery q s cfg room t =
      let messages = pending (laws.log s.wal) q.name in
      let (inv, queued, flight, name) = restarted_lem q.name cfg messages (omega arith) in
      (
        rw queued t.durable.same,
        restarted-Sound q.name s cfg room
            (Perm.nodup (Perm.map _ (Perm.symm t.durable.same)) t.durable.distinct),
      )
