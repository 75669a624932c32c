-- ===== src/Storage/Durable.antt =====
-- A log that stands for the live messages of a queue: a restart would put back exactly those. What
-- each record of the engine must come with to keep it so.
use mathlib.Core.List.Perm
use mathlib.Core.List.{Nodup-cons, perm_append_comm}
use text.Mathlib.TextPositions.{eq_refl}
use dsend.Base.{String, List, [], ◌∷◌, ◌++◌, map, ◌≡◌, ◌⊎◌, Perm, Nodup, Mem, str_eq, if◌then◌else◌}
use dsend.Model.{Message, Record, published, requeued, acknowledged, dead_lettered}
use dsend.Storage.{pending}
use dsend.Storage.Pending.{
  pending-published, pending-requeued, pending-removed, remove_message-perm,
}

abbrev pub ids : List Message → List String
ids = map (λ (m : Message). m.id)

-- The pending messages of the queue, as the log has them, are the live ones in some order, and no ID
-- stands twice.
pub record IsDurable (log : List Record) (queue : String) (live : List Message) : Type 0 where
  pub same : Perm (pending log queue) live
  pub distinct : Nodup (ids live)

at_queue :
    {A : Type 0} (r : Record) {queue : String} (x y : A)
    → r.queue ≡ queue
    → (if str_eq r.queue queue then x else y) ≡ x
at_queue r x y here = rw (here, eq_refl)

module _ {log : List Record} {queue : String} {live : List Message}
    (d : IsDurable log queue live) where
  pending_distinct : Nodup (ids (pending log queue))
  pending_distinct = Perm.nodup (Perm.map _ (Perm.symm d.same)) d.distinct

  pub reorder : {live' : List Message} → Perm live live' → IsDurable log queue live'
  reorder p = record { same = Perm.trans d.same p; distinct = Perm.nodup (Perm.map _ p) d.distinct }

  module _ (r : Record) (here : r.queue ≡ queue) {live' : List Message} where
    -- A new message with a new ID.
    pub add_published :
        r.type ≡ published
        → ¬ Mem r.message.id (ids live)
        → Perm live' (r.message ∷ live)
        → IsDurable (log ++ r ∷ []) queue live'
    add_published t fresh p = record {
      same =
          rw (pending-published log r queue t, at_queue r _ _ here)
            (Perm.trans (Perm.append_right (r.message ∷ []) d.same)
              (Perm.trans (perm_append_comm live (r.message ∷ [])) (Perm.symm p)));
      distinct = Perm.nodup (Perm.map _ (Perm.symm p)) ((Nodup-cons).1 (fresh, d.distinct));
    }

    -- A live message that is acknowledged or dead-lettered.
    pub remove_settled :
        (m : Message)
        → (r.type ≡ acknowledged) ⊎ (r.type ≡ dead_lettered)
        → r.message_id ≡ m.id
        → Perm live (m ∷ live')
        → IsDurable (log ++ r ∷ []) queue live'
    remove_settled m t e p = record {
      same =
          rw (pending-removed log r queue t, at_queue r _ _ here, e)
            (remove_message-perm m live' pending_distinct (Perm.trans d.same p));
      distinct = ((Nodup-cons).0 (Perm.nodup (Perm.map _ p) d.distinct)).1;
    }

    -- A live message that is put back under its ID.
    pub replace_requeued :
        (m : Message) (rest : List Message)
        → r.type ≡ requeued
        → r.message_id ≡ m.id
        → r.message.id ≡ m.id
        → Perm live (m ∷ rest)
        → Perm live' (r.message ∷ rest)
        → IsDurable (log ++ r ∷ []) queue live'
    replace_requeued m rest t e e' p p' = record {
      same =
          rw (pending-requeued log r queue t, at_queue r _ _ here, e)
            (Perm.trans
              (Perm.append_right (r.message ∷ [])
                (remove_message-perm m rest pending_distinct (Perm.trans d.same p)))
              (Perm.trans (perm_append_comm rest (r.message ∷ [])) (Perm.symm p')));
      distinct =
          Perm.nodup (Perm.map _ (Perm.symm p')) (rw e' (Perm.nodup (Perm.map _ p) d.distinct));
    }
