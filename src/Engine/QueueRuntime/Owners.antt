-- ===== src/Engine/QueueRuntime/Owners.antt =====
-- The tokens of a runtime in the broker's map from a token to its owner: every step of the runtime keeps
-- its own tokens owned by it, and leaves those of others alone.
pub mod Carried
use mathlib.Core.List.{Permᴰ}
use text.Mathlib.TextPositions.{eq_refl}
use dsend.Base.{
  ℕ, zero, suc, ◌+◌, ℤ, eq_ℤ, String, Bool, true, not, ◌&&◌, Option, none, some, List, [], ◌∷◌, ◌≡◌,
  ◌≢◌, refl, sym, ap, ◌∙◌, inl, inr, Map, lookup, insert, delete, lookup-insert, lookup-delete,
  str_eq, str_eq_of_ne, text_cases, if_cases, Option-cases, if◌then◌else◌, nat_eq, length,
}
use mathlib.Core.Option.{some-injective}
use dsend.Model.{Message, InFlightMessage, Delivery}
use dsend.Queue.RingBuffer as Ring
use dsend.Inflight
use dsend.Inflight.{Manager}
use dsend.Inflight.Laws as Flight
use dsend.Session.{ConsumerSession}
use dsend.Storage.{Wal, IsWal}
use dsend.Engine.{Shared, TokenHook}
use dsend.Engine.QueueRuntime.{
  QueueRuntime, Outcome, stamp, next_session, call_hook, shutdown, drop_sessions,
}
use dsend.Engine.QueueRuntime.Produce.{publish, pushed, acked, ack, log_and_push_cases, ack_cases}
use dsend.Engine.QueueRuntime.Deliver.{
  dead_letter_rounds, dead_letter_expired_messages, head_dropped, reserve_for, hand_out, handed_out,
  reserve_live, reserve_delivery,
}
use dsend.Engine.QueueRuntime.Redelivery.{
  process_item, process_items, process_expired_messages, given_up, put_back,
}
use dsend.Engine.QueueRuntime.Cases.{
  Turn, dead_letter_rounds_cases, reserve_live_cases, process_item_cases,
}
use dsend.Engine.QueueRuntime.Tracks.{
  Tracks, IsTracked, remove-Tracks, expired-Tracks, Tracks-Permᴰ,
}
use dsend.Engine.QueueRuntime.Invariant.{Inv}
use dsend.Engine.QueueRuntime.Redelivers.{process_item-Going}
use dsend.Engine.QueueRuntime.Sound.{State, after_publish, Sound}
use dsend.Engine.QueueRuntime.Steps.{
  Core, core, core-send, core-take_delivery, core-subscribe, core-unsubscribe, core-close_if_empty,
  Step, publishes, acks, reserves, sends, receives, expires, redelivers, subscribes, unsubscribes,
  shuts_down, closes,
}

-- the hooks that newQueueRuntime sets
abbrev pub registers : String → TokenHook
registers name = some (λ token owners. insert token name owners)

abbrev pub removes : TokenHook
removes = some (λ token owners. delete token owners)

pub get-remove :
    (m : Manager) (token other : String)
    → Inflight.get (Inflight.remove m token).1 other
      ≡ (if str_eq token other then none else Inflight.get m other)
unfolding Inflight.get Inflight.remove
get-remove m token other = elim (Option-cases (lookup token m.deliveries)) [
  | inl e ↦ elim (text_cases token other) [
    | inl (h, p) ↦ rw (e, Inflight.remove, h, ← p) e
    | inr (h, _) ↦ rw (e, Inflight.remove, h) refl
  ]
  | inr (item, e) ↦ rw (e, Inflight.remove, lookup-delete) refl
]

-- The fields that this is about.
abbrev pub Tokens : Type 0
Tokens = Manager × TokenHook × TokenHook

abbrev pub tokens : QueueRuntime → Tokens
tokens q = (q.in_flight_manager, q.register_token, q.remove_token)

pub tokens_of_core : (q q' : QueueRuntime) → core q' ≡ core q → tokens q' ≡ tokens q
tokens_of_core q q' e = ap (λ (c : Core). (c.2, c.7, c.8)) e

pub tokens-next_session : (q : QueueRuntime) → tokens (next_session q).0 ≡ tokens q
unfolding next_session
tokens-next_session q =
    if_cases (λ (r : QueueRuntime × Option ConsumerSession). tokens r.0 ≡ tokens q)
      (nat_eq (length q.consumer_order) 0) (λ _. refl) (λ _. refl)

module _ {W : Type 0} where
  pub owners-removes :
      {hook : TokenHook} (token other : String) (s : Shared W)
      → hook ≡ removes
      → lookup other (call_hook hook token s).token_owners
        ≡ (if str_eq token other then none else lookup other s.token_owners)
  owners-removes token other s e =
      ap (λ (h : TokenHook). lookup other (call_hook h token s).token_owners) e
      ∙ lookup-delete token other s.token_owners

  owners-registers :
      {hook : TokenHook} (name token other : String) (s : Shared W)
      → hook ≡ registers name
      → lookup other (call_hook hook token s).token_owners
        ≡ (if str_eq token other then some name else lookup other s.token_owners)
  owners-registers name token other s e =
      ap (λ (h : TokenHook). lookup other (call_hook h token s).token_owners) e
      ∙ lookup-insert token other name s.token_owners

module _ {W : Type 0} (name : String) where
  -- The runtime has the hooks of its broker, and every token in flight is owned by it.
  pub record Owns (t : State W) : Type 0 where
    pub registered : t.0.register_token ≡ registers name
    pub removed : t.0.remove_token ≡ removes
    pub owned :
        (token : String) (item : InFlightMessage)
        → Inflight.get t.0.in_flight_manager token ≡ some item
        → lookup token t.1.token_owners ≡ some name

  pub record Carries (t u : State W) : Type 0 where
    pub owns : Owns t → Owns u
    pub others :
        Owns t
        → (token n : String) → lookup token t.1.token_owners ≡ some n
        → n ≢ name
        → lookup token u.1.token_owners ≡ some n

  pub Carries-trans : {t u v : State W} → Carries t u → Carries u v → Carries t v
  Carries-trans a b = record {
    owns = λ o. b.owns (a.owns o);
    others = λ o token n e ne. b.others (a.owns o) token n (a.others o token n e ne) ne;
  }

  pub silent :
      {q q' : QueueRuntime} {s s' : Shared W}
      → tokens q' ≡ tokens q
      → s'.token_owners ≡ s.token_owners
      → Carries (q, s) (q', s')
  silent e f = record {
    owns = λ o. record {
      registered = ap (λ (c : Tokens). c.1) e ∙ o.registered;
      removed = ap (λ (c : Tokens). c.2) e ∙ o.removed;
      owned = λ token item h. rw f (o.owned token item (rw (ap (λ (c : Tokens). c.0) e) at h));
    };
    others = λ o token n h ne. rw f h;
  }

  -- A token that was in flight is taken out.
  pub taken :
      {q q' : QueueRuntime} {s : Shared W} (s' : Shared W) (token : String) (item : InFlightMessage)
      → Inflight.get q.in_flight_manager token ≡ some item
      → tokens q'
        ≡ ((Inflight.remove q.in_flight_manager token).1, q.register_token, q.remove_token)
      → s'.token_owners ≡ s.token_owners
      → Carries (q, s) (q', call_hook q.remove_token token s')
  taken {q} {q'} {s} s' token item here e f = record {
    owns = λ o. record {
      registered = ap (λ (c : Tokens). c.1) e ∙ o.registered;
      removed = ap (λ (c : Tokens). c.2) e ∙ o.removed;
      owned = λ other found h.
          let h' =
            sym (get-remove q.in_flight_manager token other)
            ∙ ap (λ (c : Tokens). Inflight.get c.0 other) (sym e)
            ∙ h in
          owners-removes token other s' o.removed ∙ elim (text_cases token other) [
            | inl (k, _) ↦ cc (rw k at h')
            | inr (k, _) ↦ rw (k, f) (o.owned other found (rw k at h'))
          ];
    };
    others = λ o other n h ne.
        owners-removes token other s' o.removed ∙ elim (text_cases token other) [
          | inl (_, p) ↦ absurd (
              ne (
                some-injective n name
                  (sym h ∙ ap (λ k. lookup k s.token_owners) (sym p) ∙ o.owned token item here)))
          | inr (k, _) ↦ rw (k, f) h
        ];
  }

  -- A new token is put in flight.
  pub given :
      {q q' : QueueRuntime} {s : Shared W} (token : String) (message : Message)
      (session_id : String) (now : ℕ)
      → lookup token s.token_owners ≡ none
      → tokens q' ≡ (
        Inflight.add q.in_flight_manager token message session_id now,
        q.register_token,
        q.remove_token,
      )
      → Carries (q, s) (q', call_hook q.register_token token s)
  given {q} {q'} {s} token message session_id now unowned e = record {
    owns = λ o. record {
      registered = ap (λ (c : Tokens). c.1) e ∙ o.registered;
      removed = ap (λ (c : Tokens). c.2) e ∙ o.removed;
      owned = λ other found h.
          let h' =
            sym (Flight.get-add q.in_flight_manager token message session_id now other)
            ∙ ap (λ (c : Tokens). Inflight.get c.0 other) (sym e)
            ∙ h in
          owners-registers name token other s o.registered ∙ elim (text_cases token other) [
            | inl (k, _) ↦ rw k refl
            | inr (k, _) ↦ rw k (o.owned other found (rw k at h'))
          ];
    };
    others = λ o other n h ne.
        owners-registers name token other s o.registered ∙ elim (text_cases token other) [
          | inl (_, p) ↦ cc (h, ap (λ k. lookup k s.token_owners) p, unowned)
          | inr (k, _) ↦ rw k h
        ];
  }

  pub quiet : (q q' : QueueRuntime) (s : Shared W) → core q' ≡ core q → Carries (q, s) (q', s)
  quiet q q' s e = silent (tokens_of_core q q' e) refl
