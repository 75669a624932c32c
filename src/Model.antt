-- ===== src/Model.antt =====
-- internal/model: the data that the broker's parts exchange. Texts are Go's strings; a time is a
-- number of nanoseconds since Go's zero time, and a `time.Duration` is an integer.
use dsend.Base.{ℕ, ℤ, pos, String, Option, none, List, []}

-- model.Message; `expiry_at` is a pointer, `none` for nil.
pub record Message : Type 0 where
  pub id : String
  pub payload : String
  pub timestamp : ℕ
  pub retry : ℤ
  pub expiry_at : Option ℕ

-- model.Message{}
abbrev pub zero_message : Message
zero_message = record { id = ""; payload = ""; timestamp = 0; retry = pos 0; expiry_at = none }

-- model.InFlightMessage
pub record InFlightMessage : Type 0 where
  pub message : Message
  pub consumer_id : String
  pub delivered_at : ℕ

-- model.Delivery
pub record Delivery : Type 0 where
  pub message : Message
  pub ack_token : String
  pub consumer_id : String

-- model.Binding
pub record Binding : Type 0 where
  pub queue_name : String
  pub binding_key : String

-- model.ExchangeType
pub data ExchangeType : Type 0 where
  direct_exchange fan_out_exchange topic_exchange : ExchangeType

-- the texts of the constants
abbrev pub exchange_type_text : ExchangeType → String
exchange_type_text direct_exchange = "direct"
exchange_type_text fan_out_exchange = "fanout"
exchange_type_text topic_exchange = "topic"

abbrev pub default_queue_name : String
default_queue_name = "default"

abbrev pub default_exchange_name : String
default_exchange_name = "default"

-- model.RecordType. `untyped` is the empty text of a record written before types were added, and
-- `other` any text that is none of the constants.
pub data RecordType : Type 0 where
  exchange_created exchange_deleted queue_created queue_deleted queue_binded queue_unbinded :
      RecordType
  published acknowledged requeued dead_lettered untyped : RecordType
  other : String → RecordType

-- model.Record
pub record Record : Type 0 where
  pub type : RecordType
  pub exchange : String
  pub exchange_type : String
  pub queue : String
  pub message : Message
  pub message_id : String
  pub binding_key : String

-- model.Record{}
abbrev pub zero_record : Record
zero_record = record {
  type = untyped;
  exchange = "";
  exchange_type = "";
  queue = "";
  message = zero_message;
  message_id = "";
  binding_key = "";
}

-- model.Metric
pub record Metric : Type 0 where
  pub produced_count : ℕ
  pub acked_count : ℕ
  pub dlq_count : ℕ
  pub inflight_count : ℕ
  pub redelivered_count : ℕ
  pub consumer_session_count : ℕ
  pub queue_depth : ℤ

-- model.Metric{}
abbrev pub zero_metric : Metric
zero_metric = record {
  produced_count = 0;
  acked_count = 0;
  dlq_count = 0;
  inflight_count = 0;
  redelivered_count = 0;
  consumer_session_count = 0;
  queue_depth = pos 0;
}

-- model.QueueMetric
pub record QueueMetric : Type 0 where
  pub name : String
  pub metric : Metric

-- model.BrokerMetrics
pub record BrokerMetrics : Type 0 where
  pub queues : List QueueMetric
  pub total : Metric

-- model.BrokerMetrics{}
abbrev pub zero_broker_metrics : BrokerMetrics
zero_broker_metrics = record { queues = []; total = zero_metric }
