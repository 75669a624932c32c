-- ===== src/Engine/Broker/Unbound.antt =====
-- The bindings of a queue that DeleteQueue deletes: what its loop over the exchanges has to take out.
use mathlib.Core.List.{Permᴰ}
use dsend.Base.{
  String, Bool, false, ◌||◌, List, [], ◌∷◌, ◌≡◌, ◌⊎◌, refl, ap, ◌∙◌, arith, Map, keys, lookup, has,
  str_eq, eq_iff, All, All-kept, delete_func,
}
use dsend.Model.{Binding}
use dsend.Exchange.{is_unbound, has_binding}
use dsend.Engine.QueueRuntime.{QueueRuntime}
use dsend.Engine.Broker.Sound.{LeadsTo}

-- Whether a text is in a list.
unfoldable pub listed : String → List String → Bool
listed x [] = false
listed x (y ∷ ys) = str_eq y x || listed x ys

pub listed-Permᴰ : (x : String) {xs ys : List String} → Permᴰ xs ys → listed x xs ≡ listed x ys
unfolding listed
listed-Permᴰ x Permᴰ.nil = refl
listed-Permᴰ x (Permᴰ.cons {b = b} e p) =
    rw e (ap (λ (h : Bool). str_eq b x || h) (listed-Permᴰ x p))
listed-Permᴰ x (Permᴰ.swap {a = a} {b = b} e f) = rw (e, f) (ground arith)
listed-Permᴰ x (Permᴰ.trans p q) = listed-Permᴰ x p ∙ listed-Permᴰ x q

pub listed-keys : {V : Type 0} (x : String) (m : Map V) → has x m ≡ listed x (keys m)
unfolding listed lookup
listed-keys x [] = refl
listed-keys x ((k, v) ∷ m) = ground (arith, listed-keys x m)

-- A binding of a queue that is being deleted, or one that leads to a queue.
abbrev pub LeadsOr : String → Map QueueRuntime → Binding → Type 0
LeadsOr name queues b = (b.queue_name ≡ name) ⊎ LeadsTo queues b

module _ (name : String) (queues : Map QueueRuntime) where
  -- An exchange that has no binding of the queue.
  pub unbound-All :
      (bs : List Binding)
      → has_binding bs "" name ≡ false
      → All (LeadsOr name queues) bs
      → All (LeadsTo queues) bs
  unfolding has_binding
  unbound-All [] h all = tt
  unbound-All (b ∷ bs) h all =
      (ground (arith, eq_iff b.queue_name name, all.0), unbound-All bs (ground arith) all.1)

  -- One that Unbind has changed.
  pub unbound_left :
      (bs : List Binding)
      → All (LeadsOr name queues) bs
      → All (LeadsTo queues) (delete_func (is_unbound "" name) bs)
  unfolding is_unbound
  unbound_left bs all =
      All-kept (LeadsOr name queues) (LeadsTo queues) _ bs
        (λ b kept either. ground (arith, eq_iff b.queue_name name, either)) all
