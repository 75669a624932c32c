-- ===== src/Exchange/Bindings.antt =====
-- Bind and Unbind: what they do to the bindings, and that the one undoes the other.
use text.Mathlib.TextPositions.{eq_refl}
use mathlib.Core.List.{append-nil}
use mathlib.Core.Path.{ap₂}
use dsend.Base.{
  String, true, false, none, some, List, [], ◌∷◌, ◌++◌, ◌≡◌, ◌≢◌, ◌∙◌, arith, All, Bool-cases, inl,
  inr, eq_iff, delete_func, delete_func-append, delete_func-none,
}
use dsend.Model.{Binding}
use dsend.Exchange.{
  Exchange, binding_already_exist, check_binding_exists, has_binding, bind, unbind, is_unbound,
}

abbrev pub binding : String → String → Binding
binding binding_key queue_name = record { queue_name = queue_name; binding_key = binding_key }

module _ (binding_key queue_name : String) where
  check-append :
      (bs : List Binding)
      → check_binding_exists (bs ++ binding binding_key queue_name ∷ []) binding_key queue_name
        ≡ true
  unfolding check_binding_exists
  check-append [] = ground (arith, eq_refl binding_key, eq_refl queue_name)
  check-append (b ∷ bs) = ground (arith, check-append bs)

  has-append :
      (bs : List Binding)
      → has_binding (bs ++ binding binding_key queue_name ∷ []) binding_key queue_name ≡ true
  unfolding has_binding
  has-append [] = ground (arith, eq_refl queue_name, eq_refl binding_key)
  has-append (b ∷ bs) = ground (arith, has-append bs)

  unbound_none :
      (bs : List Binding)
      → binding_key ≢ ""
      → check_binding_exists bs binding_key queue_name ≡ false
      → All (λ b. is_unbound binding_key queue_name b ≡ false) bs
  unfolding check_binding_exists is_unbound
  unbound_none [] ne h = tt
  unbound_none (b ∷ bs) ne h =
      (ground (arith, eq_iff binding_key ""), unbound_none bs ne (ground arith))

  unbound_self :
      binding_key ≢ "" → is_unbound binding_key queue_name (binding binding_key queue_name) ≡ true
  unfolding is_unbound
  unbound_self ne = ground (arith, eq_iff binding_key "", eq_refl binding_key, eq_refl queue_name)

  unbound_last :
      binding_key ≢ ""
      → delete_func (is_unbound binding_key queue_name) (binding binding_key queue_name ∷ []) ≡ []
  unfolding delete_func
  unbound_last ne = rw (unbound_self ne)

  unbound_rest :
      (bs : List Binding)
      → binding_key ≢ ""
      → check_binding_exists bs binding_key queue_name ≡ false
      → delete_func (is_unbound binding_key queue_name) (bs ++ binding binding_key queue_name ∷ [])
        ≡ bs
  unbound_rest bs ne new =
      let gone = is_unbound binding_key queue_name in
      delete_func-append gone bs _
      ∙ ap₂ ◌++◌ (delete_func-none gone bs (unbound_none bs ne new)) (unbound_last ne)
      ∙ append-nil bs

  -- A second Bind under the same key to the same queue fails and changes nothing, whatever the first
  -- one did.
  pub bind_twice :
      (e : Exchange)
      → let (e', _) = bind e binding_key queue_name in
        bind e' binding_key queue_name ≡ (e', some binding_already_exist)
  unfolding bind
  bind_twice e = elim (Bool-cases (check_binding_exists e.bindings binding_key queue_name)) [
    | inl old ↦ rw (old, old)
    | inr new ↦ rw (new, check-append e.bindings)
  ]

  -- Under a key that is not empty, Unbind takes out what a successful Bind has added, and nothing else:
  -- the exchange is as it was before.
  pub unbind-bind :
      (e : Exchange)
      → binding_key ≢ ""
      → (bind e binding_key queue_name).1 ≡ none
      → unbind (bind e binding_key queue_name).0 binding_key queue_name ≡ (e, none)
  unfolding bind unbind
  unbind-bind e ne ok = elim (Bool-cases (check_binding_exists e.bindings binding_key queue_name)) [
    | inl old ↦ cc (rw old at ok)
    | inr new ↦ rw (new, has-append e.bindings, unbound_rest e.bindings ne new)
  ]
