-- ===== src/Engine/Broker/Steps.antt =====
-- The broker as a state machine: its own methods, and the methods of its runtimes, in any interleaving.
use mathlib.Core.List.{Permᴰ}
use mathlib.Core.Option.{some-injective}
use dsend.Base.{
  String, true, ◌||◌, some, List, [], ◌∷◌, ◌≡◌, ◌≢◌, refl, sym, ◌∙◌, arith, inl, inr, Map, keys,
  lookup, insert, has, has-insert, has-some, text_cases, if_cases, All-map,
}
use dsend.Model.{default_queue_name}
use dsend.Storage.{Wal, IsWal}
use dsend.Storage.Frame.{Frame, Frame-pending}
use dsend.Engine.{Shared, err_wal_append}
use dsend.Engine.QueueRuntime as Runtime
use dsend.Engine.QueueRuntime.{QueueRuntime}
use dsend.Engine.QueueRuntime.Steps as RuntimeSteps
use dsend.Engine.QueueRuntime.Frame.{Step-Keeps}
use dsend.Engine.Broker.{Broker, start_queue, put_queue}
use dsend.Engine.Broker.Queues.{create_queue, delete_queue}
use dsend.Engine.Broker.Exchanges.{create_exchange, delete_exchange, bind_queue, unbind_queue}
use dsend.Engine.Broker.Messages.{start, start_all, shutdown, shut_all}
use dsend.Engine.Broker.Agrees.{framed-Agrees, renamed-Agrees}
use dsend.Engine.Broker.Sound.{Sound, LeadsTo, Runtimes-insert, carry}
use dsend.Engine.Broker.Changes.{create_queue-Sound}
use dsend.Engine.Broker.Rebound.{create_exchange-Sound, delete_exchange-Sound}
use dsend.Engine.Broker.Rebound.Bound.{bind_queue-Sound, unbind_queue-Sound}
use dsend.Engine.Broker.Deletion.Dropped.{delete_queue-Sound}

-- Shutdown leaves every runtime at its name, with its sessions dropped.
shutdown_name : (q : QueueRuntime) → (Runtime.shutdown q).name ≡ q.name
unfolding Runtime.shutdown
shutdown_name q = refl

has-shut_all : (n : String) (queues : Map QueueRuntime) → has n (shut_all queues) ≡ has n queues
unfolding shut_all lookup
has-shut_all n [] = refl
has-shut_all n ((name, q) ∷ rest) = ground (arith, has-shut_all n rest)

lookup-shut_all :
    (n : String) (queues : Map QueueRuntime) (q' : QueueRuntime)
    → lookup n (shut_all queues) ≡ some q'
    → (q : QueueRuntime) × (lookup n queues ≡ some q) × (Runtime.shutdown q ≡ q')
unfolding shut_all lookup
lookup-shut_all n [] q' e = cc
lookup-shut_all n ((name, q) ∷ rest) q' e = elim (text_cases name n) [
  | inl (h, _) ↦ (q, rw h refl, some-injective _ _ (rw h at e))
  | inr (h, _) ↦ rw h (lookup-shut_all n rest q' (rw h at e))
]

module _ {W : Type 0} ⦃wal : Wal W⦄ where
  -- One step. DeleteQueue, BindQueue and UnbindQueue come with no refusal by the log, which leaves them
  -- half done. A range over the map of exchanges takes some order.
  pub data Step : Broker W → Broker W → Type 0 where
    creates_queue : (b : Broker W) (name : String) → Step b (create_queue b name).0
    deletes_queue :
        (b : Broker W) (name : String) (order : List String → List String)
        → ((names : List String) → Permᴰ names (order names))
        → (delete_queue b name order).1 ≢ some err_wal_append
        → Step b (delete_queue b name order).0
    creates_exchange : (b : Broker W) (name type : String) → Step b (create_exchange b name type).0
    deletes_exchange : (b : Broker W) (name : String) → Step b (delete_exchange b name).0
    binds :
        (b : Broker W) (name queue_name binding_key : String)
        → (bind_queue b name queue_name binding_key).1 ≢ some err_wal_append
        → Step b (bind_queue b name queue_name binding_key).0
    unbinds :
        (b : Broker W) (name queue_name binding_key : String)
        → (unbind_queue b name queue_name binding_key).1 ≢ some err_wal_append
        → Step b (unbind_queue b name queue_name binding_key).0
    starts : (b : Broker W) → Step b (start b)
    shuts_down : (b : Broker W) → Step b (shutdown b)
    works :
        (b : Broker W) (name : String) (q q' : QueueRuntime) (s' : Shared W)
        → lookup name b.queues ≡ some q
        → RuntimeSteps.Step (q, b.shared) (q', s')
        → Step b (put_queue (record b { shared = s' }) name q')

  pub data Reach (b : Broker W) : Broker W → Type 0 where
    here : Reach b b
    next : {c d : Broker W} → Reach b c → Step c d → Reach b d

  module _ (laws : IsWal wal) where
    -- A runtime of the broker that stays where it is.
    same_names :
        (name : String) (q q' : QueueRuntime) (queues : Map QueueRuntime)
        → lookup name queues ≡ some q
        → (n : String) → has n (insert name q' queues) ≡ has n queues
    same_names name q q' queues e n = has-insert name n q' queues ∙ elim (text_cases name n) [
      | inl (h, p) ↦ rw h (sym (has-some n queues (rw p at e)))
      | inr (h, _) ↦ rw h refl
    ]

    works-Sound :
        (b : Broker W) (name : String) (q q' : QueueRuntime) (s' : Shared W)
        → lookup name b.queues ≡ some q
        → RuntimeSteps.Step (q, b.shared) (q', s')
        → Sound laws b
        → Sound laws (put_queue (record b { shared = s' }) name q')
    works-Sound b name q q' s' e st t =
        let (named, sound) = t.runtimes name q e in
        let keeps = Step-Keeps laws st in
        let frame : Frame name (laws.log b.shared.wal) (laws.log s'.wal) =
          rw named at keeps.frame in
        let same = same_names name q q' b.queues e in
        record {
          settled = record {
            room = t.room;
            runtimes =
                Runtimes-insert laws b.queues t.runtimes name (λ n ne. Frame-pending n frame ne) q'
                  (keeps.name ∙ named) (RuntimeSteps.Step-Sound laws st sound);
            agrees = renamed-Agrees (framed-Agrees (has-some name b.queues e) frame t.agrees) same;
            default_queue = same default_queue_name ∙ t.default_queue;
            default_exchange = t.default_exchange;
          };
          are_bound = λ x ex found.
              All-map (LeadsTo b.queues) (LeadsTo (insert name q' b.queues)) ex.bindings
                (λ binding h. same binding.queue_name ∙ h) (t.are_bound x ex found);
        }

    start_all-Sound :
        (names : List String) (b : Broker W) → Sound laws b → Sound laws (start_all names b)
    unfolding start_all start_queue
    start_all-Sound [] b t = t
    start_all-Sound (name ∷ names) b t = start_all-Sound names (start_queue b name) (record {
      settled = record {
        room = t.room;
        runtimes = t.runtimes;
        agrees = t.agrees;
        default_queue = t.default_queue;
        default_exchange = t.default_exchange;
      };
      are_bound = t.are_bound;
    })

    start-Sound : (b : Broker W) → Sound laws b → Sound laws (start b)
    unfolding start
    start-Sound b t =
        if_cases (Sound laws) (b.started || b.closed) (λ _. t)
          (λ _.
            start_all-Sound (keys b.queues) (record b { started = true })
              (record {
                settled = record {
                  room = t.room;
                  runtimes = t.runtimes;
                  agrees = t.agrees;
                  default_queue = t.default_queue;
                  default_exchange = t.default_exchange;
                };
                are_bound = t.are_bound;
              }))

    shutdown-Sound : (b : Broker W) → Sound laws b → Sound laws (shutdown b)
    unfolding shutdown
    shutdown-Sound b t =
        if_cases (Sound laws) b.closed (λ _. t)
          (λ _. record {
            settled = record {
              room = t.room;
              runtimes = λ n q' e.
                  let (q, found, stopped) = lookup-shut_all n b.queues q' e in
                  let (named, sound) = t.runtimes n q found in
                  let (named', sound') = carry laws n refl (
                    rw (shutdown_name q) named,
                    RuntimeSteps.Step-Sound laws (RuntimeSteps.shuts_down q b.shared) sound,
                  ) in
                  rw (← stopped) (named', sound');
              agrees = renamed-Agrees t.agrees (λ n. has-shut_all n b.queues);
              default_queue = has-shut_all default_queue_name b.queues ∙ t.default_queue;
              default_exchange = t.default_exchange;
            };
            are_bound = λ x ex found.
                All-map (LeadsTo b.queues) (LeadsTo (shut_all b.queues)) ex.bindings
                  (λ binding h. has-shut_all binding.queue_name b.queues ∙ h)
                  (t.are_bound x ex found);
          })

    pub Step-Sound : {b c : Broker W} → Step b c → Sound laws b → Sound laws c
    Step-Sound (creates_queue b name) t = create_queue-Sound laws t name
    Step-Sound (deletes_queue b name order shuffles logged) t =
        delete_queue-Sound laws name t order shuffles logged
    Step-Sound (creates_exchange b name type) t = create_exchange-Sound laws t name type
    Step-Sound (deletes_exchange b name) t = delete_exchange-Sound laws t name
    Step-Sound (binds b name queue_name binding_key logged) t =
        bind_queue-Sound laws t name queue_name binding_key logged
    Step-Sound (unbinds b name queue_name binding_key logged) t =
        unbind_queue-Sound laws t name queue_name binding_key logged
    Step-Sound (starts b) t = start-Sound b t
    Step-Sound (shuts_down b) t = shutdown-Sound b t
    Step-Sound (works b name q q' s' e st) t = works-Sound b name q q' s' e st t

    -- From a sound broker every sequence of steps, in any interleaving of the broker's methods with those
    -- of its runtimes, leads to a sound broker, if the log refuses no record of DeleteQueue, BindQueue
    -- and UnbindQueue, if cancelReservation is called only while its queue has room and the delivery is
    -- still in flight, and if new messages get IDs, and new deliveries tokens, that are not in use: each queue's runtime is sound and has the queue's name, the log has the broker's
    -- queues other than the default one and its exchanges other than the default one with their types and
    -- bindings, the default queue and the default exchange exist, and every binding of every exchange
    -- leads to a queue that exists.
    pub broker-Sound : {b c : Broker W} → Sound laws b → Reach b c → Sound laws c
    broker-Sound t here = t
    broker-Sound t (next r st) = Step-Sound st (broker-Sound t r)
