-- ===== src/Protocol.antt =====
-- internal/protocol: the requests and the responses of a connection. A Go `int` is an integer, and a
-- missing field has Go's zero value.
use dsend.Base.{ℤ, pos, String, Bool, false, List, []}
use dsend.Model.{Message, BrokerMetrics, QueueMetric, zero_message, zero_broker_metrics}

-- the constants for `Request.Type`, and any other text
pub data RequestType : Type 0 where
  publish_request consume_request ack_request metrics_request subscribe_request : RequestType
  unsubscribe_request create_queue_request delete_queue_request list_queues_request : RequestType
  bind_queue_request unbind_queue_request create_exchange_request : RequestType
  delete_exchange_request list_exchanges_request other_request : RequestType

-- the texts of the constants
abbrev pub request_type_text : RequestType → String
request_type_text publish_request = "publish"
request_type_text consume_request = "consume"
request_type_text ack_request = "ack"
request_type_text metrics_request = "metrics"
request_type_text subscribe_request = "subscribe"
request_type_text unsubscribe_request = "unsubscribe"
request_type_text create_queue_request = "create_queue"
request_type_text delete_queue_request = "delete_queue"
request_type_text list_queues_request = "list_queues"
request_type_text bind_queue_request = "bind_queue"
request_type_text unbind_queue_request = "unbind_queue"
request_type_text create_exchange_request = "create_exchange"
request_type_text delete_exchange_request = "delete_exchange"
request_type_text list_exchanges_request = "list_exchanges"
request_type_text other_request = ""

-- protocol.CurrentVersion
abbrev pub current_version : ℤ
current_version = pos 1

-- protocol.Request
pub record Request : Type 0 where
  pub id : String
  pub type : String
  pub queue : String
  pub payload : Message
  pub ttl : ℤ
  pub ack_token : String
  pub exchange : String
  pub exchange_type : String
  pub routing_key : String
  pub binding_key : String
  pub version : ℤ

-- protocol.Request{}
abbrev pub zero_request : Request
zero_request = record {
  id = "";
  type = "";
  queue = "";
  payload = zero_message;
  ttl = pos 0;
  ack_token = "";
  exchange = "";
  exchange_type = "";
  routing_key = "";
  binding_key = "";
  version = pos 0;
}

-- protocol.Response
pub record Response : Type 0 where
  pub success : Bool
  pub error : String
  pub queue : String
  pub exchange : String
  pub exchanges : List String
  pub message : Message
  pub ack_token : String
  pub metrics : BrokerMetrics
  pub queues : List QueueMetric
  pub version : ℤ

-- protocol.Response{}
abbrev pub zero_response : Response
zero_response = record {
  success = false;
  error = "";
  queue = "";
  exchange = "";
  exchanges = [];
  message = zero_message;
  ack_token = "";
  metrics = zero_broker_metrics;
  queues = [];
  version = pos 0;
}
