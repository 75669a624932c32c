-- ===== src/Storage/Frame.antt =====
-- A stretch of the log that speaks of the messages of one queue alone.
use dsend.Base.{String, true, List, [], ◌∷◌, ◌++◌, ◌≡◌, ◌≢◌, ◌⊎◌, refl, ◌∙◌, lookup, has, subst}
use dsend.Model.{Record, published, requeued, acknowledged, dead_lettered}
use dsend.Storage.{replay, apply_record, pending, pending_of}
use dsend.Storage.Pending.{replay-append}
use dsend.Storage.Topology.{message_record-MessagesOnly}

pub record Frame (name : String) (log log' : List Record) : Type 0 where
  pub exchanges : (replay log').pending_exchanges ≡ (replay log).pending_exchanges
  pub others :
      (n : String)
      → n ≢ name
      → lookup n (replay log').pending_messages ≡ lookup n (replay log).pending_messages
  pub kept :
      has name (replay log).pending_messages ≡ true → has name (replay log').pending_messages ≡ true

abbrev pub IsMessageRecord : Record → Type 0
IsMessageRecord r =
    (r.type ≡ published) ⊎ (r.type ≡ requeued) ⊎ (r.type ≡ acknowledged) ⊎ (r.type ≡ dead_lettered)

module _ {name : String} where
  pub Frame-refl : {log : List Record} → Frame name log log
  Frame-refl = record { exchanges = refl; others = λ n ne. refl; kept = λ h. h }

  pub Frame-trans : {a b c : List Record} → Frame name a b → Frame name b c → Frame name a c
  Frame-trans f g = record {
    exchanges = g.exchanges ∙ f.exchanges;
    others = λ n ne. g.others n ne ∙ f.others n ne;
    kept = λ h. g.kept (f.kept h);
  }

  pub Frame-append :
      (log : List Record) (r : Record)
      → r.queue ≡ name
      → IsMessageRecord r
      → Frame name log (log ++ r ∷ [])
  Frame-append log r here t =
      let only = message_record-MessagesOnly (replay log) r t in
      record {
        exchanges = rw replay-append only.exchanges;
        others = λ n ne. rw replay-append (only.others n (λ e. ne (e ∙ here)));
        kept = λ h. rw replay-append (
            subst (λ n. has n (apply_record (replay log) r).pending_messages ≡ true) here
              only.here);
      }

  -- Another queue has the messages that it had.
  pub Frame-pending :
      {log log' : List Record} (n : String)
      → Frame name log log'
      → n ≢ name
      → pending log' n ≡ pending log n
  unfolding pending pending_of
  Frame-pending n f ne = rw (f.others n ne, pending_of, pending)
