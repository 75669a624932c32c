-- ===== src/Queue/Dlq.antt =====
-- internal/queue/dlq.go
use dsend.Base.{ℕ, ◌-◌, List, [], ◌∷◌, ◌++◌, length, get_or}
use dsend.Model.{Message, zero_message}

-- DLQ
pub record Dlq : Type 0 where
  pub messages : List Message

-- NewDLQ
unfoldable pub new_dlq : Dlq
new_dlq = record { messages = [] }

-- Push
unfoldable pub push : Dlq → Message → Dlq
push q message = record { messages = q.messages ++ message ∷ [] }

-- Peek: the last message. Of an empty queue it panics in Go and is the zero message here.
unfoldable pub peek : Dlq → Message
peek q = get_or q.messages (length q.messages - 1) zero_message

-- Size
unfoldable pub size : Dlq → ℕ
size q = length q.messages
