-- ===== src/Exchange/Fresh.antt =====
-- Bindings that Bind accepts one after the other: none of them repeats an earlier one.
use dsend.Base.{
  String, Bool, false, ◌||◌, List, [], ◌∷◌, ◌++◌, ◌≡◌, ◌∙◌, subst, refl, arith, inl, inr,
  Bool-cases, append_assoc, append-nil, delete_func, delete_func-append,
}
use dsend.Model.{Binding}
use dsend.Exchange.{check_binding_exists}

-- Each binding is new behind `before` and those that precede it.
abbrev pub Fresh : List Binding → List Binding → Type 0
Fresh before [] = Unit
Fresh before (b ∷ bs) =
    (check_binding_exists before b.binding_key b.queue_name ≡ false) × Fresh (before ++ b ∷ []) bs

module _ (binding_key queue_name : String) where
  check-append :
      (xs ys : List Binding)
      → check_binding_exists (xs ++ ys) binding_key queue_name ≡ (
          check_binding_exists xs binding_key queue_name
          || check_binding_exists ys binding_key queue_name)
  unfolding check_binding_exists
  check-append [] ys = refl
  check-append (x ∷ xs) ys = ground (arith, check-append xs ys)

  -- What is not there is not there after a deletion.
  check-delete_func :
      (del : Binding → Bool) (xs : List Binding)
      → check_binding_exists xs binding_key queue_name ≡ false
      → check_binding_exists (delete_func del xs) binding_key queue_name ≡ false
  unfolding check_binding_exists delete_func
  check-delete_func del [] h = refl
  check-delete_func del (x ∷ xs) h = ground (arith, check-delete_func del xs)

pub Fresh-append :
    (before bs : List Binding) (b : Binding)
    → Fresh before bs
    → check_binding_exists (before ++ bs) b.binding_key b.queue_name ≡ false
    → Fresh before (bs ++ b ∷ [])
Fresh-append before [] b h new = (rw append-nil at new, tt)
Fresh-append before (x ∷ bs) b h new =
    (h.0, Fresh-append (before ++ x ∷ []) bs b h.1 (rw append_assoc new))

pub Fresh-delete_func :
    (del : Binding → Bool) (before bs : List Binding)
    → Fresh before bs
    → Fresh (delete_func del before) (delete_func del bs)
unfolding delete_func
Fresh-delete_func del before [] h = tt
Fresh-delete_func del before (b ∷ bs) h = elim (Bool-cases (del b)) [
  | inl e ↦ rw e (
      subst (λ l. Fresh l (delete_func del bs))
        (delete_func-append del before (b ∷ []) ∙ rw e (append-nil _))
        (Fresh-delete_func del (before ++ b ∷ []) bs h.1))
  | inr e ↦ rw e (
    check-delete_func b.binding_key b.queue_name del before h.0,
    subst (λ l. Fresh l (delete_func del bs)) (delete_func-append del before (b ∷ []) ∙ rw e refl)
        (Fresh-delete_func del (before ++ b ∷ []) bs h.1),
  )
]
