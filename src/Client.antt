-- ===== src/Client.antt =====
-- client: the connection of a client, and what its methods share. The children have the methods of
-- Producer and of Consumer, and what they do with the server at the other end.
pub mod Producer
pub mod Consumer
pub mod Loopback
pub mod Remote
pub mod Published
pub mod Received
pub mod Delivered
use dsend.Base.{String, Bool, true, false, Option, none, some, ◌⊎◌, inl, inr, if◌then◌else◌}
use dsend.Protocol.{Request, Response, current_version}

-- The encoder and the decoder on a connection (encoding/json and net): a request is written or not, and
-- a response is read or not.
pub record Link (C : Type 0) : Type 0 where
  pub encode : C → Request → C × Bool
  pub decode : C → C × Option Response

-- The errors of a method: the context's, that of the encoder or the decoder, and one with a text.
pub data Failure : Type 0 where
  cancelled failed_link : Failure
  reported : String → Failure

-- What a method returns.
abbrev pub Result : Type 0 → Type 0
Result A = Failure ⊎ A

-- Whether the method finds its context done when it starts, and when the connection has failed.
pub record Context : Type 0 where
  pub before : Bool
  pub after : Bool

-- client.ReceivedMessage
pub record ReceivedMessage : Type 0 where
  pub id : String
  pub payload : String
  pub ack_token : String

module _ {C : Type 0} ⦃link : Link C⦄ where
  -- Producer.do
  unfoldable pub do_request : C → Request → C × Option Response
  do_request c req =
      let (c', ok) = link.encode c (record req { version = current_version }) in
      if ok then link.decode c' else (c', none)

  -- the end of a method, with what `do` or Decode returned
  unfoldable pub conclude :
      {A : Type 0} → Context → (Response → Result A) → C × Option Response → C × Result A
  conclude ctx use_response (c, none) = (c, if ctx.after then inl cancelled else inl failed_link)
  conclude ctx use_response (c, some resp) =
      (c, if resp.success then use_response resp else inl (reported resp.error))

  -- A method of Producer: the test of the context, `do`, and its result.
  unfoldable pub call : {A : Type 0} → Context → C → Request → (Response → Result A) → C × Result A
  call ctx c req use_response =
      if ctx.before then (c, inl cancelled) else conclude ctx use_response (do_request c req)
