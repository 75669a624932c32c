-- ===== src/Lib.antt =====
-- dsend, a message broker: the broker with its queue runtimes and its exchanges, its write-ahead log, its
-- start from the log, the server that serves it over connections, and the client.
--
-- The program. An exchange (internal/exchange) routes a message to the queues that are bound to it. A
-- queue runtime (internal/engine/queue_runtime.go) keeps the messages of one queue in a ring buffer
-- (internal/queue), hands them to consumer sessions (internal/session) in turn, keeps the deliveries
-- that wait for an acknowledgement (internal/inflight), puts back or gives up those that were not
-- acknowledged in time, and drops expired messages to a dead letter queue. The broker
-- (internal/engine/mem_broker.go) owns the runtimes and the exchanges, and knows which runtime gave out
-- a token. Both write each change to the write-ahead log (internal/storage/wal.go), from which NewBroker
-- (internal/engine/broker.go) builds the broker again. The server (internal/server) accepts connections,
-- passes the requests of internal/protocol to the broker, and forwards the deliveries of a subscription;
-- the client (client) sends the requests and reads the responses.
--
-- The files.
--   Base, Base/*           shared helpers: tests, lists, association lists as Go maps, integers.
--   Model                  internal/model.
--   Queue/*                internal/queue: RingBufferQueue and DLQ. Contents has the list of messages
--                          that a ring stands for, Bounds a push on a full ring.
--   Session, Inflight      internal/session and internal/inflight.
--   Storage                wal.go: the interface WAL and the replay of Load; Pending and Durable have
--                          what each record does to the pending messages. FileWal has the file:
--                          Append, Close and Load on bytes; RoundTrip has what Load reads back,
--                          LogFile the file behind the interface.
--   Engine/QueueRuntime    queue_runtime.go: construction, Metrics, Subscribe, Unsubscribe, Shutdown,
--                          CloseIfEmpty, nextSession. Its children Produce (Publish, Ack), Deliver
--                          (deadLetterExpiredMessages, reserveDelivery, cancelReservation, the select
--                          of RunDistributor) and Redelivery (processExpiredMessages) have the other
--                          methods; Steps has the methods as steps of one relation, Overflow
--                          cancelReservation with room and without, Expiry the end of
--                          the loop over expired messages, Owners who owns the tokens,
--                          Resubscribed a session that comes back under its ID.
--   Engine/Broker          mem_broker.go: InMemoryBroker, its construction and that of a runtime. Its
--                          children Names (the checks of names and keys), Queues (CreateQueue,
--                          DeleteQueue, ListQueues), Exchanges (CreateExchange, DeleteExchange,
--                          ListExchanges, BindQueue, UnbindQueue) and Messages (Publish, Subscribe,
--                          Unsubscribe, Ack, Start, Shutdown, Metrics, QueueMetrics) have the methods;
--                          Agrees has what the broker's maps and the log have in common, Sound the
--                          invariant, Steps the methods and the runtimes' steps as one relation,
--                          Publishing and Calls the messages' way through the broker, Owned who owns
--                          a token, Acknowledged the Ack of one that is in flight, Deleted what
--                          DeleteQueue takes out, Refused what a failed Append leaves behind.
--   Engine/Broker/Startup  broker.go: NewBroker; First has the start from an empty log, Restart the
--                          start from the log of a broker, Dangling the start from a log that ends
--                          in the middle of a DeleteQueue.
--   Exchange               internal/exchange; Topic has the meaning of a topic key, Bindings what
--                          Bind and Unbind do.
--   Protocol               internal/protocol.
--   Server                 internal/server/handler.go: the state of a connection, encode, errorString
--                          and the return of handleConnection. Its children Handler (the rounds of
--                          handleConnection) and Deliveries (the goroutine of a subscription) have the
--                          rest, Steps a connection as a relation, Reached, Answers, Left and Taken what
--                          its rounds do; Conns has internal/server/tcp.go.
--   Client                 client: the link to the server and what the methods share, Producer and
--                          Consumer the methods. Loopback joins a client to the server of Server; Remote,
--                          Published, Received and Delivered have what the methods then do.
--   Examples/*             the theorems at concrete inputs.
--
-- State and time. A method that holds a lock from its first line to its last is one function on the
-- state. Clock readings, fresh UUIDs and the order of a range over a map are arguments. The log is the
-- interface `Wal` with the laws `IsWal`: a successful Append adds its record, a failed one changes
-- nothing. Storage/FileWal has the file, where a write may also fail half-way. Counters are natural
-- numbers; Go's int does not overflow in the life of a broker.
--
-- Fuel. The loop of deadLetterExpiredMessages pops a message in each round, so the number of messages
-- is enough; the loop of nextSession ends after one turn of the order; a value of the log file takes
-- at least a byte, so the number of bytes is enough for Load.
--
-- A connection. TCP, deadlines and encoding/json are parameters: a write succeeds or fails, a read gives a
-- request, a response or nothing. Loopback is the connection that delivers what was written; that the
-- two ends read what the other wrote is what TCP and encoding/json provide. The handler and the goroutine
-- of a connection, and everything else that uses the broker, take turns in any order; the mutex around
-- the encoder makes each response one write. A client that waits in Decode until its deadline is given
-- what the others make of the broker each time that its handler is woken. A goroutine reads its session's channel while the runtime
-- has the session; what is left in the channel of a session that was taken out is not read.
--
-- The runs. The invariants of the runtime, of the broker and of a connection hold in runs with three limits,
-- which the steps have as their conditions. cancelReservation comes only while the queue has room and the
-- delivery is still in flight: on a full queue it writes over a message. The log refuses no record of
-- DeleteQueue, BindQueue and UnbindQueue, which would be left half done. And IDs and tokens that
-- are drawn are not in use. RunDistributor cancels what it cannot send, so a run in which a producer
-- takes the slot before is outside the first limit.
--
-- Not modelled: the commands (cmd/dsend), which parse flags and print, and the logger, which is diagnostic
-- output. Channels and condition variables only wake goroutines: what a goroutine does once it runs is a
-- step. The rounds of a broker's Publish follow each other without another step between them; a Publish
-- that waits for room ends as one that waits, and the handler resumes it later.
pub mod Base
pub mod Model
pub mod Queue
pub mod Session
pub mod Inflight
pub mod Storage
pub mod Engine
pub mod Exchange
pub mod Protocol
pub mod Server
pub mod Client
pub mod Examples
