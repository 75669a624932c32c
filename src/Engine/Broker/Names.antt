-- ===== src/Engine/Broker/Names.antt =====
-- mem_broker.go: the checks of the names that a caller gives.
use Prim.Native.Char.{Char, code}
use Prim.Native.String.{len}
use dsend.Base.{
  String, Bool, true, false, ◌&&◌, ◌||◌, Option, none, some, List, [], ◌∷◌, length, leb, ltb,
  nat_eq, str_eq, if◌then◌else◌,
}
use dsend.Model.{
  ExchangeType, direct_exchange, fan_out_exchange, topic_exchange, exchange_type_text,
  default_exchange_name,
}
use dsend.Exchange.{split}
use dsend.Engine.{
  Error, err_invalid_queue, err_invalid_exchange, err_default_exchange, err_invalid_binding_key,
}

-- validateQueueName
unfoldable pub validate_queue_name : String → Option Error
validate_queue_name name =
    if str_eq name "" || ltb 255 (len name) then some err_invalid_queue else none

-- isValidBindingKeyChar
unfoldable pub is_valid_binding_key_char : Char → Bool
is_valid_binding_key_char r =
    let c = code r in
    (leb b'a' c && leb c b'z')
    || (leb b'A' c && leb c b'Z')
    || (leb b'0' c && leb c b'9')
    || nat_eq c b'_'
    || nat_eq c b'-'

-- the loop over the characters of a segment
unfoldable pub all_key_chars : String → Bool
unfolding is_valid_binding_key_char
all_key_chars String.[] = true
all_key_chars (String.◌∷◌ c s) = is_valid_binding_key_char c && all_key_chars s

-- One round of the loop over the segments. `rest` are the segments behind this one.
unfoldable pub is_valid_segment : String → List String → Bool
unfolding all_key_chars
is_valid_segment segment rest =
    if str_eq segment ""
    then false
    else if str_eq segment "#"
    then nat_eq (length rest) 0
    else if str_eq segment "*"
    then true
    else all_key_chars segment

unfoldable pub are_valid_segments : List String → Bool
unfolding is_valid_segment
are_valid_segments [] = true
are_valid_segments (segment ∷ rest) = is_valid_segment segment rest && are_valid_segments rest

-- validateBindingKey
unfoldable pub validate_binding_key : String → Option Error
unfolding are_valid_segments split
validate_binding_key binding_key =
    if str_eq binding_key "" || ltb 255 (len binding_key)
    then some err_invalid_binding_key
    else if are_valid_segments (split binding_key)
    then none
    else some err_invalid_binding_key

-- validateExchangeName
unfoldable pub validate_exchange_name : String → Option Error
validate_exchange_name name =
    if str_eq name "" || ltb 255 (len name)
    then some err_invalid_exchange
    else if str_eq name default_exchange_name
    then some err_default_exchange
    else none

-- validateExchangeType: the type, or none for ErrInvalidExchangeType. The code returns a type beside the
-- error for an empty name, which no caller reads.
unfoldable pub validate_exchange_type : String → Option ExchangeType
validate_exchange_type name =
    if ltb 255 (len name) || str_eq name ""
    then none
    else if str_eq name (exchange_type_text fan_out_exchange)
    then some fan_out_exchange
    else if str_eq name (exchange_type_text topic_exchange)
    then some topic_exchange
    else if str_eq name (exchange_type_text direct_exchange)
    then some direct_exchange
    else none
