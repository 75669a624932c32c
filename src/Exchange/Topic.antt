-- ===== src/Exchange/Topic.antt =====
-- The topic match against what the keys mean: `*` stands for one segment and a `#` at the end for zero
-- or more.
use text.Mathlib.TextPositions.{eq_refl}
use dsend.Base.{
  String, true, false, List, [], ◌∷◌, ◌≡◌, ◌≢◌, ◌↔◌, refl, sym, subst, arith, All, inl, inr,
  text_cases, str_eq, eq_iff, str_eq_of_ne, if◌then◌else◌,
}
use dsend.Exchange.{match_parts, is_last, match, split}

-- The meaning of a binding key, on the segments of both keys.
pub data Matches : List String → List String → Type 0 where
  done : Matches [] []
  word : (r : String) {bs rs : List String} → Matches bs rs → Matches (r ∷ bs) (r ∷ rs)
  star :
      {b : String} (r : String) {bs rs : List String}
      → b ≡ "*"
      → Matches bs rs
      → Matches (b ∷ bs) (r ∷ rs)
  hash : {b : String} (rs : List String) → b ≡ "#" → Matches (b ∷ []) rs

-- What the code accepts is a match.
pub match_parts-Matches : (bs rs : List String) → match_parts bs rs ≡ true → Matches bs rs
unfolding match_parts
match_parts-Matches [] [] h = done
match_parts-Matches [] (r ∷ rs) h = cc
match_parts-Matches (b ∷ []) [] h = hash [] ((eq_iff b "#").0 h)
match_parts-Matches (b ∷ b' ∷ bs) [] h = cc
match_parts-Matches (b ∷ bs) (r ∷ rs) h = elim (text_cases b r) [
  | inl same ↦
      subst (λ x. Matches (x ∷ bs) (r ∷ rs)) (sym same.1)
        (word r (match_parts-Matches bs rs (rw same.0 at h)))
  | inr other ↦ elim (text_cases b "*") [
    | inl is_star ↦ star r is_star.1 (match_parts-Matches bs rs (rw (other.0, is_star.0) at h))
    | inr not_star ↦ trailing bs (rw (other.0, not_star.0) at h)
  ]
]
  where
    trailing :
        (bs : List String)
        → (if str_eq b "#" then is_last bs else false) ≡ true
        → Matches (b ∷ bs) (r ∷ rs)
    trailing [] e = hash (r ∷ rs) ((eq_iff b "#").0 (ground arith))
    trailing (b' ∷ bs) e = ground arith

-- And every match is accepted, if no segment of the routing key is `#`.
pub Matches-match_parts :
    {bs rs : List String} → Matches bs rs → All (λ r. r ≢ "#") rs → match_parts bs rs ≡ true
unfolding match_parts
Matches-match_parts done h = refl
Matches-match_parts (word r m) h = rw eq_refl (Matches-match_parts m h.1)
Matches-match_parts (star {b} r {bs} {rs} e m) h =
    let rest = Matches-match_parts m h.1 in ground (arith, eq_iff b r, eq_iff b "*")
Matches-match_parts (hash {b} [] e) h = rw e
Matches-match_parts (hash {b} (r ∷ rs) e) h =
    rw (e, str_eq_of_ne {s = "#"} {t = r} (λ p. h.0 (sym p)))

-- A routing key with no segment `#` is accepted by a topic exchange exactly when it matches the binding
-- key.
pub match_iff :
    (binding_key routing_key : String)
    → All (λ r. r ≢ "#") (split routing_key)
    → (match binding_key routing_key ≡ true) ↔ Matches (split binding_key) (split routing_key)
unfolding match
match_iff binding_key routing_key h =
    (match_parts-Matches (split binding_key) (split routing_key), λ m. Matches-match_parts m h)

-- A routing key that begins with a segment `#` and goes on matches the binding key `#`, but the loop of
-- `match` refuses it: it takes the two `#` for equal words and then finds segments left over.
pub hash_segment_refused :
    (r : String) (rs : List String)
    → Matches ("#" ∷ []) ("#" ∷ r ∷ rs) × (match_parts ("#" ∷ []) ("#" ∷ r ∷ rs) ≡ false)
unfolding match_parts
hash_segment_refused r rs = (hash ("#" ∷ r ∷ rs) refl, refl)
