-- ===== src/Engine/QueueRuntime/Turns.antt =====
-- The round robin of nextSession: whom it chooses, and that it misses nobody.
use native.Mathlib.Nat.{mod-eq_of_lt, mod-add-mod, add-zero}
use dsend.Base.{
  ℕ, zero, suc, ◌+◌, ◌%◌, ◌<◌, String, true, false, Option, none, some, ◌≡◌, refl, sym, ap, subst,
  ◌∙◌, arith, length, get_or, lookup, nat_eq, leb, if◌then◌else◌, if_cases, inl, inr, Option-cases,
}
use dsend.Queue.RingBuffer.Contents.{onward-ne}
use dsend.Session.{ConsumerSession, is_eligible}
use dsend.Engine.QueueRuntime.{QueueRuntime, eligible_at, scan_sessions, next_session}

-- The k-th session of the order, counted round from `start`.
abbrev pub turn : QueueRuntime → ℕ → ℕ → ℕ
turn q start k = (start + k) % length q.consumer_order

-- Where the next call of nextSession begins to look.
abbrev pub start_of : QueueRuntime → ℕ
start_of q = if leb (length q.consumer_order) q.next_consumer then 0 else q.next_consumer

-- The scan from turn `k` on, with `rounds` turns left: it takes the first eligible turn that is left,
-- or there is none.
data FirstEligible (q : QueueRuntime) (start k : ℕ) : ℕ → Option String × ℕ → Type 0 where
  missed :
      {rounds : ℕ} {r : Option String × ℕ}
      → r.0 ≡ none
      → ((j : ℕ) → j < rounds → eligible_at q (turn q start (k + j)) ≡ false)
      → FirstEligible q start k rounds r
  found :
      {rounds : ℕ} {r : Option String × ℕ}
      → (j : ℕ) → j < rounds
      → ((i : ℕ) → i < j → eligible_at q (turn q start (k + i)) ≡ false)
      → eligible_at q (turn q start (k + j)) ≡ true
      → r.0 ≡ some (get_or q.consumer_order (turn q start (k + j)) "")
      → r.1 ≡ turn q start (k + j + 1)
      → FirstEligible q start k rounds r

module _ (q : QueueRuntime) (start : ℕ) where
  -- `k + suc j` turns on are `j` turns on from `k + 1`.
  shift : (P : ℕ → Type 0) (k j : ℕ) → P (k + 1 + j) → P (k + suc j)
  shift P k j h = let e : k + 1 + j ≡ k + suc j = omega arith in subst P e h

  next-turn : (k : ℕ) → (turn q start k + 1) % length q.consumer_order ≡ turn q start (k + 1)
  next-turn k = rw mod-add-mod (ap (λ n. n % length q.consumer_order) (omega arith))

  -- A turn that is not eligible, before the rest of the scan.
  FirstEligible-earlier :
      (k : ℕ) {rounds : ℕ} {r : Option String × ℕ}
      → eligible_at q (turn q start k) ≡ false
      → FirstEligible q start (k + 1) rounds r
      → FirstEligible q start k (suc rounds) r
  FirstEligible-earlier k {rounds = rounds} not_now (missed e all) = missed e λ j h. over j h
    where
      over : (j : ℕ) → j < suc rounds → eligible_at q (turn q start (k + j)) ≡ false
      over zero h = rw (add-zero k) not_now
      over (suc j) h = shift (λ n. eligible_at q (turn q start n) ≡ false) k j (all j (omega arith))
  FirstEligible-earlier k {r = r} not_now (found j h before this e next) =
      found (suc j) (omega arith) over (shift (λ n. eligible_at q (turn q start n) ≡ true) k j this)
        (shift (λ n. r.0 ≡ some (get_or q.consumer_order (turn q start n) "")) k j e)
        (shift (λ n. r.1 ≡ turn q start (n + 1)) k j next)
    where
      over : (i : ℕ) → i < suc j → eligible_at q (turn q start (k + i)) ≡ false
      over zero h = rw (add-zero k) not_now
      over (suc i) h =
          shift (λ n. eligible_at q (turn q start n) ≡ false) k i (before i (omega arith))

  -- Coming back to the start means that every turn has been looked at.
  back_at_start :
      (k rounds : ℕ)
      → start < length q.consumer_order
      → k + suc rounds ≡ length q.consumer_order
      → nat_eq ((turn q start k + 1) % length q.consumer_order) start ≡ true
      → rounds ≡ 0
  back_at_start k zero inside all back = refl
  back_at_start k (suc rounds) inside all back = absurd (
      onward-ne {h = start} {k = k} {cap = length q.consumer_order} inside (omega arith) (
        ap (λ n. (start + n) % length q.consumer_order) (omega arith)
        ∙ sym (next-turn k)
        ∙ ground arith))

  scan_sessions-FirstEligible :
      (rounds k : ℕ)
      → start < length q.consumer_order
      → k + rounds ≡ length q.consumer_order
      → FirstEligible q start k rounds (scan_sessions rounds q start (turn q start k))
  unfolding scan_sessions
  scan_sessions-FirstEligible zero k inside all = missed refl (λ j h. absurd (omega arith))
  scan_sessions-FirstEligible (suc rounds) k inside all =
      let rest = scan_sessions-FirstEligible rounds (k + 1) inside (omega arith) in
      if_cases (FirstEligible q start k (suc rounds)) _
        (λ e.
          found 0 (omega arith) (λ i h. absurd (omega arith)) (rw (add-zero k) e) (rw (add-zero k))
            (rw (add-zero k) (next-turn k)))
        (λ e.
          if_cases (FirstEligible q start k (suc rounds))
            (nat_eq ((turn q start k + 1) % length q.consumer_order) start)
            (λ back. missed refl λ j h.
              let last : j ≡ 0 = omega (arith, back_at_start k rounds inside all back) in
              rw (last, add-zero k) e)
            (λ _. FirstEligible-earlier k e (rw (next-turn k) rest)))

-- The session of a turn that is eligible.
eligible_session :
    (q : QueueRuntime) (i : ℕ)
    → eligible_at q i ≡ true
    → (sess : ConsumerSession) × (lookup (get_or q.consumer_order i "") q.consumer_sessions
        ≡ some sess)
      × (is_eligible sess q.config.consumer_prefetch ≡ true)
unfolding eligible_at
eligible_session q i e =
    elim (Option-cases (lookup (get_or q.consumer_order i "") q.consumer_sessions)) [
      | inl missing ↦ cc (rw (missing, eligible_at) at e)
      | inr (sess, here) ↦ (sess, here, rw (here, eligible_at) at e)
    ]

-- What a call of nextSession returns. `passed_over`: no session in the order is eligible, and none is
-- returned. `chosen`: the session returned is the first eligible one in the order, counted round from
-- the start, and the next call starts behind it.
pub data Chooses (q : QueueRuntime) (r : QueueRuntime × Option ConsumerSession) : Type 0 where
  passed_over :
      r.1 ≡ none
      → ((j : ℕ) → j < length q.consumer_order → eligible_at q (turn q (start_of q) j) ≡ false)
      → Chooses q r
  chosen :
      (j : ℕ) (sess : ConsumerSession)
      → j < length q.consumer_order
      → ((i : ℕ) → i < j → eligible_at q (turn q (start_of q) i) ≡ false)
      → r.1 ≡ some sess
      → lookup (get_or q.consumer_order (turn q (start_of q) j) "") q.consumer_sessions ≡ some sess
      → is_eligible sess q.config.consumer_prefetch ≡ true
      → r.0.next_consumer ≡ turn q (start_of q) (j + 1)
      → Chooses q r

-- The return of nextSession, from the result of its scan.
abbrev chosen_by : QueueRuntime → Option String × ℕ → QueueRuntime × Option ConsumerSession
chosen_by q r = (
  record q { next_consumer = r.1 },
  elim r.0 [ none ↦ none | some id ↦ lookup id q.consumer_sessions ],
)

from_zero : (P : ℕ → Type 0) (j : ℕ) → P (0 + j) → P j
from_zero P j h = let e : 0 + j ≡ j = omega arith in subst P e h

chosen_by-Chooses :
    (q : QueueRuntime) (r : Option String × ℕ)
    → FirstEligible q (start_of q) 0 (length q.consumer_order) r
    → Chooses q (chosen_by q r)
chosen_by-Chooses q (id, next) (missed e all) =
    passed_over (rw e)
      (λ j h. from_zero (λ n. eligible_at q (turn q (start_of q) n) ≡ false) j (all j h))
chosen_by-Chooses q (id, next) (found j h before this e after) =
    let this' = from_zero (λ n. eligible_at q (turn q (start_of q) n) ≡ true) j this in
    let e' = from_zero (λ n. id ≡ some (get_or q.consumer_order (turn q (start_of q) n) "")) j e in
    let (sess, here, eligible) = eligible_session q _ this' in
    chosen j sess h
      (λ i k. from_zero (λ n. eligible_at q (turn q (start_of q) n) ≡ false) i (before i k))
      (rw e' here) here eligible (from_zero (λ n. next ≡ turn q (start_of q) (n + 1)) j after)

-- With a session in the order, nextSession returns the first eligible one, counted round from where the
-- last call stopped, and the next call starts behind it; it returns none only if no session of the
-- order is eligible.
pub next_session-Chooses :
    (q : QueueRuntime) → 0 < length q.consumer_order → Chooses q (next_session q)
unfolding next_session
next_session-Chooses q some_session =
    if_cases (Chooses q) (nat_eq (length q.consumer_order) 0) (λ none_left. ground arith)
      (λ _. chosen_by-Chooses q _ (subst at_start e scan))
  where
    inside : start_of q < length q.consumer_order
    inside = ground arith

    at_start : ℕ → Type 0
    at_start i =
        FirstEligible q (start_of q) 0 (length q.consumer_order)
          (scan_sessions (length q.consumer_order) q (start_of q) i)

    e : turn q (start_of q) 0 ≡ start_of q
    e = rw (add-zero (start_of q)) (mod-eq_of_lt inside)

    scan : at_start (turn q (start_of q) 0)
    scan =
        scan_sessions-FirstEligible q (start_of q) (length q.consumer_order) 0 inside (omega arith)
