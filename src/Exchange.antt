-- ===== src/Exchange.antt =====
-- internal/exchange: the bindings of an exchange, and the queues that a routing key leads to. The lock
-- of an exchange makes each method one step.
pub mod Bindings
pub mod Topic
pub mod Fresh
use Prim.Native.Char.{Char, code}
use dsend.Base.{
  ℕ, String, Bool, true, false, ◌&&◌, ◌||◌, not, Option, none, some, List, [], ◌∷◌, ◌++◌,
  delete_func, str_eq, nat_eq, if◌then◌else◌,
}
use dsend.Model.{Binding, ExchangeType, direct_exchange, fan_out_exchange, topic_exchange}

-- baseExchange, with the type that says which Route it has
pub record Exchange : Type 0 where
  pub name : String
  pub type : ExchangeType
  pub bindings : List Binding

pub data BindingError : Type 0 where
  binding_not_exist binding_already_exist : BindingError

-- NewExchangeFactory, with NewDirectExchange, NewFanOutExchange, NewTopicExchange and NewBaseExchange
unfoldable pub new_exchange_factory : String → ExchangeType → Exchange
new_exchange_factory name type = record { name = name; type = type; bindings = [] }

-- checkBindingExists
unfoldable pub check_binding_exists : List Binding → String → String → Bool
check_binding_exists [] binding_key queue_name = false
check_binding_exists (b ∷ bs) binding_key queue_name =
    (str_eq b.binding_key binding_key && str_eq b.queue_name queue_name)
    || check_binding_exists bs binding_key queue_name

-- hasBinding
unfoldable pub has_binding : List Binding → String → String → Bool
has_binding [] binding_key queue_name = false
has_binding (b ∷ bs) binding_key queue_name =
    (str_eq b.queue_name queue_name && (str_eq binding_key "" || str_eq b.binding_key binding_key))
    || has_binding bs binding_key queue_name

-- Bind
unfoldable pub bind : Exchange → String → String → Exchange × Option BindingError
bind e binding_key queue_name =
    if check_binding_exists e.bindings binding_key queue_name
    then (e, some binding_already_exist)
    else (
      record e {
        bindings = e.bindings ++ record { queue_name = queue_name; binding_key = binding_key } ∷ [];
      },
      none,
    )

-- the bindings that Unbind deletes: those of the queue, under the key if one is given
unfoldable pub is_unbound : String → String → Binding → Bool
is_unbound binding_key queue_name b =
    if not (str_eq binding_key "")
    then str_eq b.binding_key binding_key && str_eq b.queue_name queue_name
    else str_eq b.queue_name queue_name

-- Unbind
unfoldable pub unbind : Exchange → String → String → Exchange × Option BindingError
unbind e binding_key queue_name =
    if not (has_binding e.bindings binding_key queue_name)
    then (e, some binding_not_exist)
    else (record e { bindings = delete_func (is_unbound binding_key queue_name) e.bindings }, none)

-- ListBindings
unfoldable pub list_bindings : Exchange → List Binding
list_bindings e = e.bindings

-- strings.Split(s, "."). A string without the separator is one part.
extend : Char → List String → List String
extend c [] = String.◌∷◌ c String.[] ∷ []
extend c (part ∷ parts) = String.◌∷◌ c part ∷ parts

unfoldable pub split : String → List String
unfolding extend
split String.[] = "" ∷ []
split (String.◌∷◌ c s) =
    let rest = split s in if nat_eq (code c) b'.' then "" ∷ rest else extend c rest

-- What `match` tests when its loop has used up one of the two keys.
unfoldable pub matches_rest : List String → List String → Bool
matches_rest [] [] = true
matches_rest [] (r ∷ rs) = false
matches_rest (b ∷ []) rs = str_eq b "#"
matches_rest (b ∷ b' ∷ bs) rs = false

is_last : List String → Bool
is_last [] = true
is_last (b ∷ bs) = false

-- The loop of `match`, on the parts of the two keys that are left.
unfoldable pub match_parts : List String → List String → Bool
unfolding matches_rest is_last
match_parts [] rs = matches_rest [] rs
match_parts (b ∷ bs) [] = matches_rest (b ∷ bs) []
match_parts (b ∷ bs) (r ∷ rs) =
    let rest = match_parts bs rs in
    if str_eq b r
    then rest
    else if str_eq b "*"
    then rest
    else if str_eq b "#"
    then is_last bs
    else false

-- TopicExchange.match
unfoldable pub match : String → String → Bool
unfolding split match_parts
match binding_key routing_key = match_parts (split binding_key) (split routing_key)

-- The test that Route makes on a binding key, for each type of exchange.
unfoldable pub routes_to : ExchangeType → String → String → Bool
unfolding match
routes_to direct_exchange binding_key routing_key = str_eq binding_key routing_key
routes_to fan_out_exchange binding_key routing_key = true
routes_to topic_exchange binding_key routing_key = match binding_key routing_key

route_from : ExchangeType → List Binding → String → List String
unfolding routes_to
route_from type [] routing_key = []
route_from type (b ∷ bs) routing_key =
    let rest = route_from type bs routing_key in
    if routes_to type b.binding_key routing_key then b.queue_name ∷ rest else rest

-- Route
unfoldable pub route : Exchange → String → List String
unfolding route_from
route e routing_key = route_from e.type e.bindings routing_key
