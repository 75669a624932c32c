-- ===== src/Base/Lists.antt =====
-- Slices: lists measured and indexed by native numbers, and `slices.DeleteFunc`.
use Prim.Native.Nat.{ℕ, zero, suc, ◌+◌, ◌≤◌, ◌<◌}
use mathlib.Core.Path.{◌≡◌, refl, ap}
use mathlib.Core.Logic.{◌≢◌, ∥∥₁_map, inl, inr}
use mathlib.Core.Bool.{Bool, false}
use mathlib.Core.List.{List, [], ◌∷◌, ◌++◌, Perm, Permᴰ}
use mathlib.Core.List.Permᴰ.{refl as Permᴰ-refl}
use native.Mathlib.Omega.{arith}
use dsend.Base.Tests.{if◌then◌else◌, Bool-cases}

-- A predicate of every item, by recursion, so that the tactics read it.
abbrev pub All {ℓ κ} : {A : Type ℓ} → (A → Type κ) → List A → Type κ
All P [] = Unit
All P (x ∷ xs) = P x × All P xs

module _ {ℓ} {A : Type ℓ} where
  abbrev pub length : List A → ℕ
  length [] = 0
  length (x ∷ xs) = suc (length xs)

  abbrev pub get_or : List A → ℕ → A → A
  get_or [] i d = d
  get_or (x ∷ xs) zero d = x
  get_or (x ∷ xs) (suc i) d = get_or xs i d

  -- A write out of bounds changes nothing.
  abbrev pub set : List A → ℕ → A → List A
  set [] i v = []
  set (x ∷ xs) zero v = v ∷ xs
  set (x ∷ xs) (suc i) v = x ∷ set xs i v

  abbrev pub take : ℕ → List A → List A
  take zero xs = []
  take (suc n) [] = []
  take (suc n) (x ∷ xs) = x ∷ take n xs

  pub take-all : (n : ℕ) (xs : List A) → length xs ≤ n → take n xs ≡ xs
  take-all zero [] h = refl
  take-all zero (x ∷ xs) h = elim h [ ]
  take-all (suc n) [] h = refl
  take-all (suc n) (x ∷ xs) h = ap (λ ys. x ∷ ys) (take-all n xs (omega arith))

  abbrev pub replicate : ℕ → A → List A
  replicate zero a = []
  replicate (suc n) a = a ∷ replicate n a

  pub length-replicate : (n : ℕ) (a : A) → length (replicate n a) ≡ n
  length-replicate zero a = refl
  length-replicate (suc n) a = ap suc (length-replicate n a)

  pub length-append : (xs ys : List A) → length (xs ++ ys) ≡ length xs + length ys
  length-append [] ys = omega arith
  length-append (x ∷ xs) ys = omega (arith, length-append xs ys)

  pub length-set : (xs : List A) (i : ℕ) (v : A) → length (set xs i v) ≡ length xs
  length-set [] i v = refl
  length-set (x ∷ xs) zero v = refl
  length-set (x ∷ xs) (suc i) v = ap suc (length-set xs i v)

  pub get_or-set_self :
      (xs : List A) (i : ℕ) (v d : A) → i < length xs → get_or (set xs i v) i d ≡ v
  get_or-set_self [] i v d h = absurd (omega arith)
  get_or-set_self (x ∷ xs) zero v d h = refl
  get_or-set_self (x ∷ xs) (suc i) v d h = get_or-set_self xs i v d (omega arith)

  pub get_or-set_ne :
      (xs : List A) {i j : ℕ} (v d : A) → i ≢ j → get_or (set xs i v) j d ≡ get_or xs j d
  get_or-set_ne [] v d h = refl
  get_or-set_ne (x ∷ xs) {i = zero} {j = zero} v d h = absurd (h refl)
  get_or-set_ne (x ∷ xs) {i = zero} {j = suc j} v d h = refl
  get_or-set_ne (x ∷ xs) {i = suc i} {j = zero} v d h = refl
  get_or-set_ne (x ∷ xs) {i = suc i} {j = suc j} v d h = get_or-set_ne xs v d (λ e. h (ap suc e))

module _ {ℓ} {A : Type ℓ} where
  -- slices.DeleteFunc
  unfoldable pub delete_func : (A → Bool) → List A → List A
  delete_func del [] = []
  delete_func del (x ∷ xs) = let rest = delete_func del xs in if del x then rest else x ∷ rest

  pub delete_func-append :
      (del : A → Bool) (xs ys : List A)
      → delete_func del (xs ++ ys) ≡ delete_func del xs ++ delete_func del ys
  unfolding delete_func
  delete_func-append del [] ys = refl
  delete_func-append del (x ∷ xs) ys = ground (arith, delete_func-append del xs ys)

  pub delete_func-none :
      (del : A → Bool) (xs : List A) → All (λ x. del x ≡ false) xs → delete_func del xs ≡ xs
  unfolding delete_func
  delete_func-none del [] h = refl
  delete_func-none del (x ∷ xs) h = ground (arith, delete_func-none del xs h.1)

  pub All-delete_func {κ} :
      (P : A → Type κ) (del : A → Bool) (xs : List A) → All P xs → All P (delete_func del xs)
  unfolding delete_func
  All-delete_func P del [] h = tt
  All-delete_func P del (x ∷ xs) h = elim (Bool-cases (del x)) [
    | inl e ↦ rw e (All-delete_func P del xs h.1)
    | inr e ↦ rw e (h.0, All-delete_func P del xs h.1)
  ]

  pub All-append {κ} : (P : A → Type κ) (xs ys : List A) → All P xs → All P ys → All P (xs ++ ys)
  All-append P [] ys all_xs all_ys = all_ys
  All-append P (x ∷ xs) ys (first, rest) all_ys = (first, All-append P xs ys rest all_ys)

  -- What is left has what the deleted items lack.
  pub All-kept {κ μ} :
      (P : A → Type κ) (Q : A → Type μ) (del : A → Bool) (xs : List A)
      → ((x : A) → del x ≡ false → P x → Q x)
      → All P xs
      → All Q (delete_func del xs)
  unfolding delete_func
  All-kept P Q del [] f h = tt
  All-kept P Q del (x ∷ xs) f h = elim (Bool-cases (del x)) [
    | inl e ↦ rw e (All-kept P Q del xs f h.1)
    | inr e ↦ rw e (f x e h.0, All-kept P Q del xs f h.1)
  ]

  pub All-map {κ μ} :
      (P : A → Type κ) (Q : A → Type μ) (xs : List A) → ((x : A) → P x → Q x) → All P xs → All Q xs
  All-map P Q [] f h = tt
  All-map P Q (x ∷ xs) f h = (f x h.0, All-map P Q xs f h.1)

  delete_func-Permᴰ :
      (del : A → Bool) {xs ys : List A}
      → Permᴰ xs ys
      → Permᴰ (delete_func del xs) (delete_func del ys)
  unfolding delete_func
  delete_func-Permᴰ del Permᴰ.nil = Permᴰ.nil
  delete_func-Permᴰ del (Permᴰ.cons {a = a} {b = b} e p) =
      let rest = delete_func-Permᴰ del p in
      rw (← e)
        (elim (Bool-cases (del a)) [ inl h ↦ rw h rest | inr h ↦ rw h (Permᴰ.cons refl rest) ])
  delete_func-Permᴰ del (Permᴰ.swap {a = a} {b = b} e f) =
      rw (← e, ← f)
        (elim (Bool-cases (del a)) [
          | inl h ↦ rw h (Permᴰ-refl _)
          | inr h ↦ elim (Bool-cases (del b)) [
            | inl k ↦ rw (h, k) (Permᴰ-refl _)
            | inr k ↦ rw (h, k) (Permᴰ.swap refl refl)
          ]
        ])
  delete_func-Permᴰ del (Permᴰ.trans p q) =
      Permᴰ.trans (delete_func-Permᴰ del p) (delete_func-Permᴰ del q)

  pub delete_func-perm :
      (del : A → Bool) {xs ys : List A}
      → Perm xs ys
      → Perm (delete_func del xs) (delete_func del ys)
  delete_func-perm del p = ∥∥₁_map p (delete_func-Permᴰ del)
