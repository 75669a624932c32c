-- ===== src/Inflight/Laws.antt =====
-- What the queue runtime relies on: the entries as a list of messages, and each method's effect on it.
use dsend.Base.{
  ℕ, ◌+◌, String, ◌≡◌, refl, none, some, List, [], ◌∷◌, ◌++◌, map, arith, length-append, IsMap,
  insert-Absent, insert-IsMap, delete-IsMap, delete-perm, length-delete, lookup-insert,
  lookup-delete, lookup-Absent, Perm, str_eq, if◌then◌else◌,
}
use mathlib.Core.List.Perm
use mathlib.Core.List.{map-append}
use dsend.Model.{Message, InFlightMessage}
use dsend.Inflight.{Manager, new_manager, add, remove, get, size}

abbrev pub IsValid : Manager → Type 0
IsValid m = IsMap m.deliveries

-- The messages in flight.
unfoldable pub messages : Manager → List Message
messages m = map (λ (e : String × InFlightMessage). e.1.message) m.deliveries

pub new_manager_lem : IsValid new_manager × (messages new_manager ≡ []) × (size new_manager ≡ 0)
unfolding new_manager messages size
new_manager_lem = (tt, refl, refl)

module _ (m : Manager) (token : String) where
  pub add_lem :
      (message : Message) (session_id : String) (now : ℕ)
      → IsValid m
      → get m token ≡ none
      → IsValid (add m token message session_id now)
        × (messages (add m token message session_id now) ≡ messages m ++ message ∷ [])
        × (size (add m token message session_id now) ≡ size m + 1)
  unfolding add messages size get
  add_lem message session_id now v e =
      let entry : InFlightMessage = record {
        message = message;
        consumer_id = session_id;
        delivered_at = now;
      } in
      let grown = insert-Absent token entry m.deliveries (lookup-Absent token m.deliveries e) in
      (
        insert-IsMap token entry m.deliveries v,
        rw (grown, map-append),
        rw grown (length-append m.deliveries ((token, entry) ∷ [])),
      )

  pub get-add :
      (message : Message) (session_id : String) (now : ℕ) (other : String)
      → get (add m token message session_id now) other ≡ (
          if str_eq token other
          then some (record { message = message; consumer_id = session_id; delivered_at = now })
          else get m other)
  unfolding add get
  get-add message session_id now other = lookup-insert token other _ m.deliveries

  -- In a valid manager, `Remove` of a token that is there returns its entry and takes out that entry
  -- alone, and `Get` finds every other token as before.
  pub remove_lem :
      (item : InFlightMessage)
      → IsValid m
      → get m token ≡ some item
      → ((remove m token).0 ≡ some item)
        × IsValid (remove m token).1
        × Perm (messages m) (item.message ∷ messages (remove m token).1)
        × (size m ≡ size (remove m token).1 + 1)
        × ((other : String)
            → get (remove m token).1 other ≡ (if str_eq token other then none else get m other))
  unfolding remove messages size get
  remove_lem item v e =
      rw (e, remove)
        (
          refl,
          delete-IsMap token m.deliveries v,
          Perm.map _ (delete-perm token item m.deliveries v e),
          omega (arith, length-delete token item m.deliveries v e),
          λ other. lookup-delete token other m.deliveries,
        )

  pub remove_missing : get m token ≡ none → remove m token ≡ (none, m)
  unfolding remove get
  remove_missing e = rw (e, remove)
