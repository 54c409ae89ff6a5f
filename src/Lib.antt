-- ===== src/Lib.antt =====
-- A verification library for lmc, a lightweight MQTT client.
--
-- The client is one task, the transceiver, that owns the connection. It reads bytes from a transport
-- into whole packets, decodes them, dispatches messages to the receivers of matching topic patterns,
-- and writes the packets of the client's commands and its own replies. The files and their code:
--
--   Prelude         shared names, Boolean tests, lists, bit operations, association lists
--   Errors          src/errors.rs, and QoS of src/lib.rs
--   Utf8            str::from_utf8 of the standard library, by its documented table of byte sequences
--   ByteIo          src/transceiver/byte_io.rs: ByteReader is a state monad over the bytes left, ByteWriter
--                   the bytes written and the room left; the names are those of the source
--   Packets         src/transceiver/packets.rs: Control (PacketType, ControlField, PublishFlags), Frame
--                   (encode_packet_size, make_packet), Outgoing and Incoming (the packets of the client),
--                   Broker (the decoders and encoders of the test broker)
--   Transport       src/transport.rs, the trait as a record of operations and documented behaviour, which
--                   Transport.Tcp (TcpTransport) fills; Transport.Contract has what the task relies on
--   Tls             src/tls/mod.rs, the transport over TLS, which fills the same interface; Tls.ClientAuth is
--                   src/tls/client_auth.rs and the methods of the options that load certificates
--   PacketReader    src/transceiver/packet_reader.rs: recv over any transport
--   Subscription    src/transceiver/subscription.rs: Receivers (Subscription), Topic (TopicSlicer), Tree
--                   (SubscriptionSet and its nodes); a reference that the code returns to change a
--                   subscription is a function on it
--   Commands        src/transceiver/commands.rs
--   Shared          src/shared.rs: the maps that the client's handles and the transceiver's task share
--   Futures         src/futures.rs: PublishFuture and SubscribeFuture, over the map that they look at
--   Transceiver     src/transceiver/mod.rs: Writing (the packets that are written and that wait), Ids (IdType
--                   of src/transceiver/util.rs), State (the task's state and a monad of actions on it),
--                   Sending (the parts of the handlers), Process (process_packet, a handler for each
--                   packet), Step (the commands and ticks of task_step, and task_step as a relation),
--                   Task (task_step and its loop as functions of what select! picks), Disconnect (the
--                   disconnect sequence, and task as a whole), Notify and Shutdown (the end of task), Spawn
--                   (its beginning, and what Client::connect hands over)
--   Client          src/lib.rs: the publish methods up to the command and their results, subscribe as a
--                   state machine over its awaits (Subscribing), connect over the answers of the system
--                   (Host, Connecting), and src/subs.rs
--   Options         src/options.rs
--   Examples        the theorems at concrete inputs, with a transport that cuts its stream into pieces
--
-- Bytes are natural numbers, below 256 where a theorem says so; a u16 is a number below 65536 that
-- from_native reduces; the length of a packet is computed on 64 bits with the wrap-around written out.
-- A topic is the list of its bytes. A panic is a value: `none` of a writer, `panicked` of a decoder,
-- `crashed` of an operation on the connection. A loop that cannot be structural runs on fuel: the
-- decoders of the test broker and `prune` take the number of bytes or elements, one of which each round
-- takes, and the loop over a topic its length, since each round leaves a shorter rest. The loop that
-- writes the pending packets takes its fuel as an argument and gives `none` where that ends; more fuel
-- than bytes are pending is enough, and task_step gives it that much. The loop over the timeouts is bounded
-- by their number, as in the code. The loop over recv ends when the transport would block, which the other
-- side decides, so that its fuel is an argument of the task; the waits of the disconnect sequence are a
-- list, and where that ends the time limit has passed.
--
-- What the task does to others is a log in its state: messages it hands to receivers, wakers it wakes, the
-- result of the connection. The clock is a number that a branch of task_step reads once. In the
-- relation of Step, `select!` takes one branch, or one round of the loop that reads packets. A lock is held
-- throughout the operation that takes it, and a `panic_in_test` only logs.
--
-- Not modelled: tokio and rustls, which are parameters with their documented behaviour as laws
-- (TcpStream, Connection, Crypto, the record Outside of the client's connection); the conditions that
-- select! waits for, which are inputs; the verifier that accepts every certificate; the handles that only
-- ask the command queue; the macros, type aliases and logging; the allocation of memory.
pub mod Prelude
pub mod Errors
pub mod Utf8
pub mod ByteIo
pub mod Packets
pub mod Tls
pub mod Transport
pub mod PacketReader
pub mod Subscription
pub mod Commands
pub mod Shared
pub mod Futures
pub mod Transceiver
pub mod Client
pub mod Options
mod Examples
