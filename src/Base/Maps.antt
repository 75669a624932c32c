-- ===== src/Base/Maps.antt =====
-- Go's maps with string keys, as association lists in the order of the last insertion of a new key.
-- A `range` over a map may take any order: a definition that iterates takes the order as an argument,
-- or its theorems do not depend on it.
use Prim.Native.Nat.{suc}
use Prim.Native.String.{String}
use mathlib.Core.Path.{◌≡◌, refl, sym, ap, subst}
use mathlib.Core.Logic.{◌≢◌, inl, inr}
use mathlib.Core.Bool.{Bool, true, false, not, ◌&&◌, ◌||◌}
use mathlib.Core.Option.{Option, none, some}
use mathlib.Core.List.{List, [], ◌∷◌, ◌++◌, Perm}
use mathlib.Core.List.Perm
use native.Mathlib.Omega.{arith}
use text.Mathlib.Text.{◌==◌ as str_eq}
use text.Mathlib.TextEquality.{eq_iff}
use dsend.Base.Tests.{if◌then◌else◌, text_cases}
use dsend.Base.Lists.{length}

abbrev pub Map {ℓ} : Type ℓ → Type ℓ
Map V = List (String × V)

abbrev pub keys {ℓ} : {V : Type ℓ} → Map V → List String
keys [] = []
keys ((k, v) ∷ m) = k ∷ keys m

abbrev pub values {ℓ} : {V : Type ℓ} → Map V → List V
values [] = []
values ((k, v) ∷ m) = v ∷ values m

module _ {ℓ} {V : Type ℓ} where
  -- m[k], with the flag that tells whether the key is there
  unfoldable pub lookup : String → Map V → Option V
  lookup k [] = none
  lookup k ((j, v) ∷ m) = if str_eq j k then some v else lookup k m

  -- m[k] = v
  unfoldable pub insert : String → V → Map V → Map V
  insert k v [] = (k, v) ∷ []
  insert k v ((j, w) ∷ m) = if str_eq j k then (j, v) ∷ m else (j, w) ∷ insert k v m

  -- delete(m, k)
  unfoldable pub delete : String → Map V → Map V
  delete k [] = []
  delete k ((j, v) ∷ m) = let rest = delete k m in if str_eq j k then rest else (j, v) ∷ rest

  -- `_, ok := m[k]`
  abbrev pub has : String → Map V → Bool
  has k m = elim (lookup k m) [ none ↦ false | some _ ↦ true ]

  -- No key stands twice, which Go's maps give for nothing and the model keeps.
  abbrev pub Absent : String → Map V → Type 0
  Absent k [] = Unit
  Absent k ((j, v) ∷ m) = (j ≢ k) × Absent k m

  abbrev pub IsMap : Map V → Type 0
  IsMap [] = Unit
  IsMap ((j, v) ∷ m) = Absent j m × IsMap m

  pub lookup-Absent : (k : String) (m : Map V) → lookup k m ≡ none → Absent k m
  unfolding lookup
  lookup-Absent k [] h = tt
  lookup-Absent k ((j, v) ∷ m) h = elim (text_cases j k) [
    | inl e ↦ cc (rw (e.0) at h)
    | inr e ↦ (e.1, lookup-Absent k m (rw (e.0) at h))
  ]

  pub Absent-lookup : (k : String) (m : Map V) → Absent k m → lookup k m ≡ none
  unfolding lookup
  Absent-lookup k [] h = refl
  Absent-lookup k ((j, v) ∷ m) h = ground (arith, eq_iff j k, Absent-lookup k m h.1)

  pub insert-Absent :
      (k : String) (v : V) (m : Map V) → Absent k m → insert k v m ≡ m ++ (k, v) ∷ []
  unfolding insert
  insert-Absent k v [] h = refl
  insert-Absent k v ((j, w) ∷ m) h = ground (arith, eq_iff j k, insert-Absent k v m h.1)

  pub delete-Absent : (k : String) (m : Map V) → Absent k m → delete k m ≡ m
  unfolding delete
  delete-Absent k [] h = refl
  delete-Absent k ((j, w) ∷ m) h = ground (arith, eq_iff j k, delete-Absent k m h.1)

  pub lookup-insert :
      (key other : String) (value : V) (entries : Map V)
      → lookup other (insert key value entries)
        ≡ (if str_eq key other then some value else lookup other entries)
  unfolding lookup insert
  lookup-insert key other value [] = refl
  lookup-insert key other value ((first, old) ∷ rest) =
      let later = lookup-insert key other value rest in
      ground (arith, eq_iff first key, eq_iff first other, eq_iff key other, later)

  pub lookup-delete :
      (k j : String) (m : Map V) → lookup j (delete k m) ≡ (if str_eq k j then none else lookup j m)
  unfolding lookup delete
  lookup-delete k j [] = ground arith
  lookup-delete k j ((i, w) ∷ m) =
      ground (arith, eq_iff k j, eq_iff i k, eq_iff i j, lookup-delete k j m)

  Absent-insert : (k j : String) (v : V) (m : Map V) → k ≢ j → Absent j m → Absent j (insert k v m)
  unfolding insert
  Absent-insert k j v [] ne h = (ne, tt)
  Absent-insert k j v ((i, w) ∷ m) ne h = elim (text_cases i k) [
    | inl e ↦ rw (e.0) h
    | inr e ↦ rw (e.0) (h.0, Absent-insert k j v m ne h.1)
  ]

  pub Absent-delete : (k j : String) (m : Map V) → Absent j m → Absent j (delete k m)
  unfolding delete
  Absent-delete k j [] h = tt
  Absent-delete k j ((i, w) ∷ m) h = elim (text_cases i k) [
    | inl e ↦ rw (e.0) (Absent-delete k j m h.1)
    | inr e ↦ rw (e.0) (h.0, Absent-delete k j m h.1)
  ]

  pub insert-IsMap : (k : String) (v : V) (m : Map V) → IsMap m → IsMap (insert k v m)
  unfolding insert
  insert-IsMap k v [] h = (tt, tt)
  insert-IsMap k v ((i, w) ∷ m) h = elim (text_cases i k) [
    | inl e ↦ rw (e.0) h
    | inr e ↦ rw (e.0) (Absent-insert k i v m (λ p. e.1 (sym p)) h.0, insert-IsMap k v m h.1)
  ]

  pub delete-IsMap : (k : String) (m : Map V) → IsMap m → IsMap (delete k m)
  unfolding delete
  delete-IsMap k [] h = tt
  delete-IsMap k ((i, w) ∷ m) h = elim (text_cases i k) [
    | inl e ↦ rw (e.0) (delete-IsMap k m h.1)
    | inr e ↦ rw (e.0) (Absent-delete k i m h.0, delete-IsMap k m h.1)
  ]

  pub delete-Absent_self : (k : String) (m : Map V) → Absent k (delete k m)
  unfolding delete
  delete-Absent_self k [] = tt
  delete-Absent_self k ((i, w) ∷ m) = elim (text_cases i k) [
    | inl e ↦ rw (e.0) (delete-Absent_self k m)
    | inr e ↦ rw (e.0) (e.1, delete-Absent_self k m)
  ]

  -- The entry under a key and the rest of the map.
  pub delete-perm :
      (k : String) (v : V) (m : Map V)
      → IsMap m
      → lookup k m ≡ some v
      → Perm m ((k, v) ∷ delete k m)
  unfolding lookup delete
  delete-perm k v [] h e = cc
  delete-perm k v ((i, w) ∷ m) h e = elim (text_cases i k) [
    | inl p ↦
        rw (p.0, delete-Absent k m (subst (λ j. Absent j m) p.1 h.0))
          (Perm.cons' (cc (rw (p.0) at e)) Perm.rfl)
    | inr p ↦ rw (p.0) (
        Perm.trans (Perm.cons (i, w) (delete-perm k v m h.1 (rw (p.0) at e)))
          (Perm.swap (k, v) (i, w) _))
  ]

  pub length-delete :
      (k : String) (v : V) (m : Map V)
      → IsMap m
      → lookup k m ≡ some v
      → length m ≡ suc (length (delete k m))
  unfolding lookup delete
  length-delete k v [] h e = cc
  length-delete k v ((i, w) ∷ m) h e =
      ground (arith, eq_iff i k, length-delete k v m h.1, delete-Absent k m, ap (λ j. Absent j m))

  pub has-insert :
      (k j : String) (v : V) (m : Map V) → has j (insert k v m) ≡ (str_eq k j || has j m)
  has-insert k j v m = ground (arith, lookup-insert k j v m)

  pub has-delete : (k j : String) (m : Map V) → has j (delete k m) ≡ (not (str_eq k j) && has j m)
  has-delete k j m = ground (arith, lookup-delete k j m)

  pub has-some : (k : String) (m : Map V) {v : V} → lookup k m ≡ some v → has k m ≡ true
  has-some k m e = rw (e, has)

  pub has-none : (k : String) (m : Map V) → lookup k m ≡ none → has k m ≡ false
  has-none k m e = rw (e, has)

  pub none_of_has : (k : String) (m : Map V) → has k m ≡ false → lookup k m ≡ none
  none_of_has k m h = ground arith

  pub delete-insert : (k : String) (v : V) (m : Map V) → delete k (insert k v m) ≡ delete k m
  unfolding delete insert
  delete-insert k v [] = ground (arith, eq_iff k k)
  delete-insert k v ((j, w) ∷ m) = elim (text_cases j k) [
    | inl (h, p) ↦ rw (h, h) refl
    | inr (h, p) ↦ rw (h, h) (ap (λ (rest : Map V). (j, w) ∷ rest) (delete-insert k v m))
  ]
