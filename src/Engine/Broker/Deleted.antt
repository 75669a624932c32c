-- ===== src/Engine/Broker/Deleted.antt =====
-- After a DeleteQueue that succeeds.
use mathlib.Core.List.{Permᴰ}
use dsend.Base.{
  String, false, not, Option, none, some, List, [], ◌∷◌, ◌≡◌, ◌∙◌, arith, inl, inr, Bool-cases,
  lookup, insert, none_of_has, has, has-delete, text_cases, eq_iff, if_cases, Option-cases,
}
use dsend.Model.{default_queue_name}
use dsend.Storage.{Wal, IsWal}
use dsend.Exchange.{
  Exchange, BindingError, binding_not_exist, binding_already_exist, unbind, has_binding,
}
use dsend.Engine.QueueRuntime.{QueueRuntime, close_if_empty}
use dsend.Engine.Broker.{Broker, Outcome, put_queue, put_exchange}
use dsend.Engine.Broker.Queues.{
  queue_deleted_record, queue_unbinded_record, queue_dropped, loop_ended, unbind_logged,
  unbind_round, unbind_everywhere, delete_closed, delete_queue,
}
use dsend.Engine.Broker.Sound.{Sound, log_then_cases}
use dsend.Engine.Broker.Deletion.Dropped.{delete_queue-Sound}
use dsend.Engine.Broker.Startup.Dangling.{leads_there}

module _ {W : Type 0} ⦃wal : Wal W⦄ (name : String) where
  -- The queue is not in the broker.
  abbrev Gone : Outcome W → Type 0
  Gone o = has name o.0.queues ≡ false

  round-Gone :
      (b : Broker W) (x : String) → has name b.queues ≡ false → Gone (unbind_round b x name)
  unfolding unbind_round unbind_logged
  round-Gone b x gone = elim (Option-cases (lookup x b.exchanges)) [
    | inl e ↦ rw (e, unbind_round) gone
    | inr (ex, found) ↦ rw (found, unbind_round) (logged (unbind ex "" name))
  ]
    where
      logged : (o : Exchange × Option BindingError) → Gone (unbind_logged b x name o)
      logged (e, some binding_not_exist) = gone
      logged (e, some binding_already_exist) = gone
      logged (e, none) =
          log_then_cases Gone (put_exchange b x e) (queue_unbinded_record x name "") _ (λ _. gone)
            (λ _. gone)

  loop-Gone :
      (xs : List String) (b : Broker W)
      → has name b.queues ≡ false
      → Gone (unbind_everywhere xs b name)
  unfolding unbind_everywhere
  loop-Gone [] b gone = gone
  loop-Gone (x ∷ xs) b gone = elim (Option-cases (unbind_round b x name).1) [
    | inl e ↦ rw (e, unbind_everywhere) (loop-Gone xs _ (round-Gone b x gone))
    | inr (err, e) ↦ rw (e, unbind_everywhere) (round-Gone b x gone)
  ]

  ended-Gone :
      (retired : List QueueRuntime) (q : QueueRuntime) (o : Outcome W)
      → Gone o
      → Gone (loop_ended retired name q o)
  unfolding loop_ended queue_dropped
  ended-Gone retired q (b, none) gone = gone
  ended-Gone retired q (b, some err) gone = gone

  deleted-Gone :
      (b : Broker W) (order : List String → List String)
      → (delete_queue b name order).1 ≡ none
      → Gone (delete_queue b name order)
  unfolding delete_queue delete_closed
  deleted-Gone b order = elim (text_cases name default_queue_name) [
    | inl (h, _) ↦ rw (h, delete_queue) (λ f. cc f)
    | inr (h, _) ↦ elim (Option-cases (lookup name b.queues)) [
      | inl e ↦ rw (h, e, delete_queue) (λ f. cc f)
      | inr (q, e) ↦
          let P : Outcome W → Type 0 = λ o. o.1 ≡ none → Gone o in
          rw (h, e, delete_queue)
            (if_cases P (not (close_if_empty q).1) (λ _ f. cc f)
              (λ _.
                log_then_cases P (put_queue b name (close_if_empty q).0) (queue_deleted_record name)
                  _
                  (λ _ _. ended-Gone b.retired (close_if_empty q).0 _ (
                    loop-Gone _ _ (
                      has-delete name name (insert name (close_if_empty q).0 b.queues)
                      ∙ ground (arith, eq_iff name name))))
                  (λ _ f. cc f)))
    ]
  ]

  -- DeleteQueue in a sound broker, with its exchanges in any order: if it returns no error, then the broker
  -- is sound, it does not have the queue, and no exchange that it has keeps a binding of the queue.
  pub delete_queue_lem :
      (laws : IsWal wal) (b : Broker W) (order : List String → List String)
      → Sound laws b
      → ((names : List String) → Permᴰ names (order names))
      → (delete_queue b name order).1 ≡ none
      → (x : String) (e : Exchange) → lookup x (delete_queue b name order).0.exchanges ≡ some e
      → Sound laws (delete_queue b name order).0
        × (lookup name (delete_queue b name order).0.queues ≡ none)
        × (has_binding e.bindings "" name ≡ false)
  delete_queue_lem laws b order t shuffles fine x e found =
      let sound = delete_queue-Sound laws name t order shuffles (λ h. cc (fine, h)) in
      let gone = deleted-Gone b order fine in
      (
        sound,
        none_of_has name (delete_queue b name order).0.queues gone,
        elim (Bool-cases (has_binding e.bindings "" name)) [
          | inl bound ↦ cc (gone, leads_there _ name e.bindings bound (sound.are_bound x e found))
          | inr free ↦ free
        ],
      )
