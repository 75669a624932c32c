-- ===== src/Storage/Keys.antt =====
-- The maps of a replay have each key once.
use dsend.Base.{List, [], ◌∷◌, IsMap, lookup, insert-IsMap, delete-IsMap, inl, inr, Option-cases}
use dsend.Model.{
  Record, RecordType, queue_created, published, requeued, acknowledged, dead_lettered,
  queue_deleted, queue_binded, queue_unbinded, exchange_created, exchange_deleted, untyped, other,
}
use dsend.Storage.{
  RecoveredState, create_pending, bind_pending, unbind_pending, apply_type, apply_record,
  replay_from, replay,
}

abbrev pub AreMaps : RecoveredState → Type 0
AreMaps state = IsMap state.pending_messages × IsMap state.pending_exchanges

apply_type-AreMaps :
    (type : RecordType) (state : RecoveredState) (r : Record)
    → AreMaps state
    → AreMaps (apply_type type state r)
unfolding apply_type
apply_type-AreMaps queue_created state r (m, x) =
    elim (Option-cases (lookup r.queue state.pending_messages)) [
      | inl e ↦
          rw (e, create_pending, apply_type) (insert-IsMap r.queue [] state.pending_messages m, x)
      | inr (_, e) ↦ rw (e, create_pending, apply_type) (m, x)
    ]
apply_type-AreMaps published state r (m, x) = (insert-IsMap r.queue _ state.pending_messages m, x)
apply_type-AreMaps requeued state r (m, x) = (insert-IsMap r.queue _ state.pending_messages m, x)
apply_type-AreMaps acknowledged state r (m, x) =
    (insert-IsMap r.queue _ state.pending_messages m, x)
apply_type-AreMaps dead_lettered state r (m, x) =
    (insert-IsMap r.queue _ state.pending_messages m, x)
apply_type-AreMaps queue_deleted state r (m, x) = (delete-IsMap r.queue state.pending_messages m, x)
apply_type-AreMaps queue_binded state r (m, x) =
    elim (Option-cases (lookup r.exchange state.pending_exchanges)) [
      | inl e ↦ rw (e, bind_pending, apply_type) (m, x)
      | inr (_, e) ↦
          rw (e, bind_pending, apply_type) (m, insert-IsMap r.exchange _ state.pending_exchanges x)
    ]
apply_type-AreMaps queue_unbinded state r (m, x) =
    elim (Option-cases (lookup r.exchange state.pending_exchanges)) [
      | inl e ↦ rw (e, unbind_pending, apply_type) (m, x)
      | inr (_, e) ↦
          rw (e, unbind_pending, apply_type)
            (m, insert-IsMap r.exchange _ state.pending_exchanges x)
    ]
apply_type-AreMaps exchange_created state r (m, x) =
    (m, insert-IsMap r.exchange _ state.pending_exchanges x)
apply_type-AreMaps exchange_deleted state r (m, x) =
    (m, delete-IsMap r.exchange state.pending_exchanges x)
apply_type-AreMaps untyped state r t = t
apply_type-AreMaps (other _) state r t = t

replay_from-AreMaps :
    (state : RecoveredState) (log : List Record) → AreMaps state → AreMaps (replay_from state log)
unfolding replay_from apply_record
replay_from-AreMaps state [] t = t
replay_from-AreMaps state (r ∷ log) t =
    replay_from-AreMaps (apply_record state r) log (apply_type-AreMaps r.type state r t)

pub replay-AreMaps : (log : List Record) → AreMaps (replay log)
unfolding replay
replay-AreMaps log = replay_from-AreMaps _ log (tt, tt)
