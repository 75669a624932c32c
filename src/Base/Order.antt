-- ===== src/Base/Order.antt =====
-- slices.Sort and slices.SortFunc on texts, as the insertion of one item after the other: the sorted
-- list does not depend on the algorithm where no two keys are equal.
use Prim.Native.Nat.{Ordering}
use Prim.Native.String.{String, compare}
use mathlib.Core.Bool.{Bool, true, false}
use mathlib.Core.List.{List, [], ◌∷◌}
use dsend.Base.Tests.{if◌then◌else◌}

-- strings.Compare(s, t) <= 0
abbrev pub text_leb : String → String → Bool
text_leb s t = elim (compare s t) [ Ordering.gt ↦ false | _ ↦ true ]

module _ {ℓ} {A : Type ℓ} where
  unfoldable pub insert_by : (A → String) → A → List A → List A
  insert_by key x [] = x ∷ []
  insert_by key x (y ∷ ys) =
      let rest = insert_by key x ys in if text_leb (key x) (key y) then x ∷ y ∷ ys else y ∷ rest

  -- slices.SortFunc by `strings.Compare` of a key
  unfoldable pub sort_by : (A → String) → List A → List A
  unfolding insert_by
  sort_by key [] = []
  sort_by key (x ∷ xs) = insert_by key x (sort_by key xs)

-- slices.Sort of texts
unfoldable pub sort_texts : List String → List String
unfolding sort_by
sort_texts = sort_by (λ s. s)
