-- ===== src/Storage/Pending.antt =====
-- What each record that the engine writes does to the pending messages of a queue.
use mathlib.Core.List.Perm
use mathlib.Core.List.{Nodup-cons, mem-cons_self, mem-cons}
use mathlib.Core.Logic.Or
use text.Mathlib.TextPositions.{eq_refl}
use dsend.Base.{
  String, List, [], ◌∷◌, ◌++◌, map, ◌≡◌, ◌⊎◌, inl, inr, refl, ap, ◌∙◌, subst, arith, lookup-insert,
  delete_func, delete_func-perm, str_eq, if◌then◌else◌, Perm, Nodup, Mem, text_cases,
}
use dsend.Model.{Message, Record, published, requeued, acknowledged, dead_lettered}
use dsend.Storage.{
  RecoveredState, remove_message, pending_of, apply_record, replay_from, replay, pending,
  put_pending,
}

replay_from-append :
    (state : RecoveredState) (rs : List Record) (r : Record)
    → replay_from state (rs ++ r ∷ []) ≡ apply_record (replay_from state rs) r
unfolding replay_from
replay_from-append state [] r = refl
replay_from-append state (x ∷ rs) r = replay_from-append (apply_record state x) rs r

-- One more record in the log is one more step of the replay.
pub replay-append :
    (rs : List Record) (r : Record) → replay (rs ++ r ∷ []) ≡ apply_record (replay rs) r
unfolding replay
replay-append rs r = replay_from-append _ rs r

module _ (state : RecoveredState) where
  pending_of-put :
      (key queue : String) (ms : List Message)
      → pending_of (put_pending state key ms) queue
        ≡ (if str_eq key queue then ms else pending_of state queue)
  unfolding pending_of put_pending
  pending_of-put key queue ms = ground (arith, lookup-insert key queue ms state.pending_messages)

  module _ (r : Record) (queue : String) where
    same_queue :
        (f : List Message → List Message)
        → (if str_eq r.queue queue then f (pending_of state r.queue) else pending_of state queue)
          ≡ (if str_eq r.queue queue then f (pending_of state queue) else pending_of state queue)
    same_queue f = elim (text_cases r.queue queue) [ inl e ↦ rw e.1 | inr e ↦ rw e.0 ]

    apply_published :
        r.type ≡ published
        → pending_of (apply_record state r) queue ≡ (
            if str_eq r.queue queue
            then pending_of state queue ++ r.message ∷ []
            else pending_of state queue)
    unfolding apply_record
    apply_published e =
        rw (apply_record, e)
          (pending_of-put r.queue queue _ ∙ same_queue (λ ms. ms ++ r.message ∷ []))

    apply_requeued :
        r.type ≡ requeued
        → pending_of (apply_record state r) queue ≡ (
            if str_eq r.queue queue
            then remove_message (pending_of state queue) r.message_id ++ r.message ∷ []
            else pending_of state queue)
    unfolding apply_record
    apply_requeued e =
        rw (apply_record, e)
          (pending_of-put r.queue queue _
            ∙ same_queue (λ ms. remove_message ms r.message_id ++ r.message ∷ []))

    apply_removed :
        (r.type ≡ acknowledged) ⊎ (r.type ≡ dead_lettered)
        → pending_of (apply_record state r) queue ≡ (
            if str_eq r.queue queue
            then remove_message (pending_of state queue) r.message_id
            else pending_of state queue)
    unfolding apply_record
    apply_removed (inl e) =
        rw (apply_record, e)
          (pending_of-put r.queue queue _ ∙ same_queue (λ ms. remove_message ms r.message_id))
    apply_removed (inr e) =
        rw (apply_record, e)
          (pending_of-put r.queue queue _ ∙ same_queue (λ ms. remove_message ms r.message_id))

module _ (rs : List Record) (r : Record) (queue : String) where
  pub pending-published :
      r.type ≡ published
      → pending (rs ++ r ∷ []) queue
        ≡ (if str_eq r.queue queue then pending rs queue ++ r.message ∷ [] else pending rs queue)
  unfolding pending
  pending-published e = rw replay-append (apply_published (replay rs) r queue e)

  pub pending-requeued :
      r.type ≡ requeued
      → pending (rs ++ r ∷ []) queue ≡ (
          if str_eq r.queue queue
          then remove_message (pending rs queue) r.message_id ++ r.message ∷ []
          else pending rs queue)
  unfolding pending
  pending-requeued e = rw replay-append (apply_requeued (replay rs) r queue e)

  pub pending-removed :
      (r.type ≡ acknowledged) ⊎ (r.type ≡ dead_lettered)
      → pending (rs ++ r ∷ []) queue ≡ (
          if str_eq r.queue queue
          then remove_message (pending rs queue) r.message_id
          else pending rs queue)
  unfolding pending
  pending-removed e = rw replay-append (apply_removed (replay rs) r queue e)

-- A message whose ID no other message of the list has.
pub remove_message_unique :
    (m : Message) (rest : List Message)
    → ¬ Mem m.id (map (λ (x : Message). x.id) rest)
    → remove_message rest m.id ≡ rest
unfolding remove_message
remove_message_unique m [] fresh = refl
remove_message_unique m (x ∷ rest) fresh = elim (text_cases x.id m.id) [
  | inl e ↦ absurd (fresh (rw e.1 mem-cons_self))
  | inr e ↦
      rw e.0
        (ap (λ ys. x ∷ ys) (remove_message_unique m rest (λ h. fresh ((mem-cons).1 (Or.inr h)))))
]

-- Removing the ID of one message of a list without repeated IDs takes out that message alone.
pub remove_message-perm :
    {xs : List Message} (m : Message) (rest : List Message)
    → Nodup (map (λ (x : Message). x.id) xs)
    → Perm xs (m ∷ rest)
    → Perm (remove_message xs m.id) rest
unfolding remove_message delete_func
remove_message-perm {xs} m rest distinct p =
    subst (Perm (remove_message xs m.id)) (gone ∙ remove_message_unique m rest alone)
      (delete_func-perm _ p)
  where
    alone : ¬ Mem m.id (map (λ (x : Message). x.id) rest)
    alone = ((Nodup-cons).0 (Perm.nodup (Perm.map _ p) distinct)).0

    gone : remove_message (m ∷ rest) m.id ≡ remove_message rest m.id
    gone = rw eq_refl
