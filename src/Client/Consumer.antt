-- ===== src/Client/Consumer.antt =====
-- client/consumer.go: the methods of Consumer. Ack, Subscribe and Unsubscribe send a request and do not
-- wait for an answer; Receive reads what comes next.
use dsend.Base.{String, Option, none, some, inl, inr, if◌then◌else◌}
use dsend.Protocol.{
  ack_request, subscribe_request, unsubscribe_request, request_type_text, Request, Response,
  zero_request, current_version,
}
use dsend.Client.{Link, Failure, failed_link, cancelled, Result, Context, ReceivedMessage, conclude}

-- what Receive makes of a response that is a success
abbrev pub received_message : Response → ReceivedMessage
received_message resp = record {
  id = resp.message.id;
  payload = resp.message.payload;
  ack_token = resp.ack_token;
}

-- a request of a Consumer
abbrev pub versioned : String → Request
versioned type = record zero_request { version = current_version; type = type }

module _ {C : Type 0} ⦃link : Link C⦄ where
  -- Receive. A context that is done while it waits closes the connection, and Decode fails.
  unfoldable pub receive : Context → C → C × Result ReceivedMessage
  receive ctx c =
      if ctx.before
      then (c, inl cancelled)
      else conclude ctx (λ resp. inr (received_message resp)) (link.decode c)

  -- `if err := c.encoder.Encode(&req); err != nil { return err }`
  unfoldable pub send_request : C → Request → C × Option Failure
  send_request c req =
      let (c', ok) = link.encode c req in if ok then (c', none) else (c', some failed_link)

  -- Ack
  unfoldable pub ack : C → String → C × Option Failure
  ack c token =
      send_request c (record (versioned (request_type_text ack_request)) { ack_token = token })

  -- Subscribe, with the client's ID
  unfoldable pub subscribe : C → String → String → C × Option Failure
  subscribe c id queue_name =
      send_request c
        (record (versioned (request_type_text subscribe_request)) { queue = queue_name; id = id })

  -- Unsubscribe
  unfoldable pub unsubscribe : C → C × Option Failure
  unsubscribe c = send_request c (versioned (request_type_text unsubscribe_request))
