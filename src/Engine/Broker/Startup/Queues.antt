-- ===== src/Engine/Broker/Startup/Queues.antt =====
-- The queues that NewBroker makes from the log.
use dsend.Base.{
  String, ◌||◌, none, some, List, [], ◌∷◌, ◌≡◌, refl, subst, ◌∙◌, arith, inl, inr, Map, Absent,
  IsMap, lookup, insert, has, lookup-insert, Absent-lookup, str_eq, text_cases, Option-cases,
  if◌then◌else◌,
}
use dsend.Model.{Message, default_queue_name}
use dsend.Storage.{pending_of, RecoveredState}
use dsend.Engine.{Config}
use dsend.Engine.QueueRuntime.{QueueRuntime}
use dsend.Engine.Broker.{new_runtime}
use dsend.Engine.Broker.Startup.{restore_queues, with_default_queue}

module _ (cfg : Config) (n : String) where
  lookup-restore_queues :
      (found : Map (List Message)) (queues : Map QueueRuntime)
      → IsMap found
      → lookup n (restore_queues cfg found queues)
        ≡ elim (lookup n found) [ none ↦ lookup n queues | some ms ↦ some (new_runtime cfg n ms) ]
  unfolding restore_queues lookup
  lookup-restore_queues [] queues m = refl
  lookup-restore_queues ((name, ms) ∷ rest) queues m =
      lookup-restore_queues rest (insert name (new_runtime cfg name ms) queues) m.1
      ∙ elim (text_cases name n) [
        | inl (h, p) ↦
            rw (h, Absent-lookup n rest (subst (λ k. Absent k rest) p m.0), lookup-insert, h, p)
              refl
        | inr (h, _) ↦ rw h (ground (arith, lookup-insert name n (new_runtime cfg name ms) queues))
      ]

  restored_some :
      (found : Map (List Message)) (ms : List Message)
      → IsMap found
      → lookup n found ≡ some ms
      → lookup n (restore_queues cfg found []) ≡ some (new_runtime cfg n ms)
  restored_some found ms m e = lookup-restore_queues found [] m ∙ rw e refl

  restored_none :
      (found : Map (List Message))
      → IsMap found
      → lookup n found ≡ none
      → lookup n (restore_queues cfg found []) ≡ none
  unfolding lookup
  restored_none found m e = lookup-restore_queues found [] m ∙ rw e refl

  module _ (queues : Map QueueRuntime) where
    default_known :
        (q : QueueRuntime)
        → lookup n queues ≡ some q
        → lookup n (with_default_queue cfg queues) ≡ some q
    unfolding with_default_queue
    default_known q e = elim (Option-cases (lookup default_queue_name queues)) [
      | inr (old, f) ↦ rw (f, with_default_queue) e
      | inl f ↦
          rw (f, with_default_queue, lookup-insert)
            (elim (text_cases default_queue_name n) [
              | inl (h, p) ↦ cc (f, rw (← p) at e)
              | inr (h, _) ↦ rw h e
            ])
    ]

    default_new :
        lookup n queues ≡ none
        → lookup n (with_default_queue cfg queues)
          ≡ (if str_eq default_queue_name n then some (new_runtime cfg n []) else none)
    unfolding with_default_queue
    default_new e = elim (Option-cases (lookup default_queue_name queues)) [
      | inr (old, f) ↦
          rw (f, with_default_queue)
            (elim (text_cases default_queue_name n) [
              | inl (h, p) ↦ cc (f, rw (← p) at e)
              | inr (h, _) ↦ rw h e
            ])
      | inl f ↦
          rw (f, with_default_queue, lookup-insert)
            (elim (text_cases default_queue_name n) [
              | inl (h, p) ↦ rw (h, p) refl
              | inr (h, _) ↦ rw h e
            ])
    ]

  -- The queues of the log, and the default one, each with the runtime that its messages make.
  pub lookup-start :
      (found : Map (List Message))
      → IsMap found
      → lookup n (with_default_queue cfg (restore_queues cfg found [])) ≡ elim (lookup n found) [
        | none ↦ if str_eq default_queue_name n then some (new_runtime cfg n []) else none
        | some ms ↦ some (new_runtime cfg n ms)
      ]
  lookup-start found m = elim (Option-cases (lookup n found)) [
    | inl e ↦ rw e (default_new (restore_queues cfg found []) (restored_none found m e))
    | inr (ms, e) ↦
        rw e (default_known (restore_queues cfg found []) _ (restored_some found ms m e))
  ]

  pub has-start :
      (found : Map (List Message))
      → IsMap found
      → has n (with_default_queue cfg (restore_queues cfg found []))
        ≡ (has n found || str_eq default_queue_name n)
  has-start found m = ground (arith, lookup-start found m)

  pub start_runtime :
      (state : RecoveredState) (q : QueueRuntime)
      → IsMap state.pending_messages
      → lookup n (with_default_queue cfg (restore_queues cfg state.pending_messages [])) ≡ some q
      → q ≡ new_runtime cfg n (pending_of state n)
  unfolding pending_of
  start_runtime state q m e = ground (arith, lookup-start state.pending_messages m)
