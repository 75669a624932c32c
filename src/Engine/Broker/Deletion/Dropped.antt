-- ===== src/Engine/Broker/Deletion/Dropped.antt =====
-- DeleteQueue keeps the broker sound, unless the log refuses a record.
use mathlib.Core.List.{Permᴰ}
use dsend.Base.{
  String, not, none, some, List, [], ◌∷◌, ◌++◌, ◌≡◌, ◌≢◌, refl, sym, ◌∙◌, arith, inl, inr, keys,
  lookup, delete, has-delete, has-some, delete-insert, str_eq_of_ne, eq_iff, text_cases, if_cases,
  Option-cases, All-map,
}
use dsend.Model.{default_queue_name}
use dsend.Storage.{Wal, IsWal, replay}
use dsend.Storage.Pending.{replay-append}
use dsend.Storage.Topology.{messages-deleted}
use dsend.Engine.QueueRuntime.{QueueRuntime, close_if_empty}
use dsend.Engine.Broker.{Broker, Outcome, put_queue, with_log}
use dsend.Engine.Broker.Queues.{
  queue_deleted_record, queue_dropped, loop_ended, delete_closed, delete_queue,
}
use dsend.Engine.Broker.Agrees.{deleted-Agrees}
use dsend.Engine.Broker.Sound.{Sound, Runtimes-log, Runtimes-delete, log_then_cases}
use dsend.Engine.Broker.Changes.{same_pending}
use dsend.Engine.Broker.Rebound.{SoundUnlessRefused}
use dsend.Engine.Broker.Unbound.{listed, listed-Permᴰ, listed-keys}
use dsend.Engine.Broker.Deletion.{Deleting, Goes, unbind_everywhere-Goes}

module _ {W : Type 0} ⦃wal : Wal W⦄ (laws : IsWal wal) (name : String) where
  -- What is left to do at the end.
  dropped-Sound :
      (b : Broker W) (retired : List QueueRuntime) (runtime : QueueRuntime)
      → Deleting laws name [] b
      → Sound laws (queue_dropped (record b { retired = retired }) name runtime)
  unfolding queue_dropped listed
  dropped-Sound b retired runtime t = record {
    settled = record {
      room = t.room;
      runtimes = Runtimes-log laws b.queues t.runtimes (λ n. refl);
      agrees = t.agrees;
      default_queue = t.default_queue;
      default_exchange = t.default_exchange;
    };
    are_bound = λ x e found. t.cleaned x e found refl;
  }

  loop_ended-Sound :
      {b : Broker W} (t : Sound laws b) (retired : List QueueRuntime) (runtime : QueueRuntime)
      (o : Outcome W)
      → Goes laws name [] o
      → SoundUnlessRefused laws t (loop_ended retired name runtime o)
  unfolding loop_ended
  loop_ended-Sound t retired runtime (b, none) goes ne = dropped-Sound b retired runtime (goes ne).0
  loop_ended-Sound t retired runtime (b, some err) goes ne = cc ((goes ne).1)

  module _ {b : Broker W} (t : Sound laws b) (named : name ≢ default_queue_name)
      (order : List String → List String)
      (shuffles : (names : List String) → Permᴰ names (order names)) where
    -- the queue is gone from the map, and the loop begins
    begun :
        (w : W) (retired : List QueueRuntime)
        → laws.log w ≡ laws.log b.shared.wal ++ queue_deleted_record name ∷ []
        → Deleting laws name
            (order (keys b.exchanges))
            (record (with_log b w) { queues = delete name b.queues; retired = retired })
    begun w retired e =
        let r = queue_deleted_record name in
        record {
          settled = record {
            room = t.room;
            runtimes = Runtimes-delete laws b.queues t.runtimes name (λ n ne. rw e (
                same_pending laws b r n (
                  messages-deleted (replay (laws.log b.shared.wal)) r refl n
                  ∙ rw (str_eq_of_ne (λ k. ne (sym k))))));
            agrees = rw (e, replay-append) (deleted-Agrees t.agrees r refl);
            default_queue = ground (
              arith,
              has-delete name default_queue_name b.queues,
              t.default_queue,
              eq_iff name default_queue_name,
            );
            default_exchange = t.default_exchange;
          };
          partly = λ x f found.
              All-map _ _ f.bindings
                (λ binding h. elim (text_cases name binding.queue_name) [
                  | inl (_, p) ↦ inl (sym p)
                  | inr (k, _) ↦ inr (has-delete name binding.queue_name b.queues ∙ rw k h)
                ])
                (t.are_bound x f found);
          cleaned = λ x f found gone. cc (
            gone,
            listed-Permᴰ x (shuffles (keys b.exchanges)),
            listed-keys x b.exchanges,
            has-some x b.exchanges found,
          );
        }

    delete_closed-Sound :
        (runtime : QueueRuntime) → SoundUnlessRefused laws t (delete_closed b name runtime order)
    unfolding delete_closed
    delete_closed-Sound runtime =
        log_then_cases (SoundUnlessRefused laws t) (put_queue b name runtime)
          (queue_deleted_record name) _
          (λ done.
            let w = (wal.append b.shared.wal (queue_deleted_record name)).0 in
            let b' : Broker W = record (with_log b w) {
              queues = delete name b.queues;
              retired = runtime ∷ b.retired;
            } in
            rw (delete-insert name runtime b.queues) (
              loop_ended-Sound t b.retired runtime _ (
                unbind_everywhere-Goes laws name (order (keys b.exchanges)) b' (
                  begun w (runtime ∷ b.retired)
                    (laws.append_ok b.shared.wal (queue_deleted_record name) done)))))
          (λ _ h. absurd (h refl))

  -- DeleteQueue keeps the broker sound, unless the log refuses a record.
  pub delete_queue-Sound :
      {b : Broker W} (t : Sound laws b) (order : List String → List String)
      → ((names : List String) → Permᴰ names (order names))
      → SoundUnlessRefused laws t (delete_queue b name order)
  unfolding delete_queue
  delete_queue-Sound {b} t order shuffles = elim (text_cases name default_queue_name) [
    | inl (h, _) ↦ rw (h, delete_queue) (λ _. t)
    | inr (h, named) ↦ elim (Option-cases (lookup name b.queues)) [
      | inl e ↦ rw (h, e, delete_queue) (λ _. t)
      | inr (runtime, e) ↦
          rw (h, e, delete_queue)
            (if_cases (SoundUnlessRefused laws t) (not (close_if_empty runtime).1) (λ _ _. t)
              (λ _. delete_closed-Sound t named order shuffles (close_if_empty runtime).0))
    ]
  ]
