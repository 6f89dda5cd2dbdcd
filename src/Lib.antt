-- ===== src/Lib.antt =====
-- The verification library of msgtrans, a multi-protocol message transport.
--
-- The program. `crates/msgtrans/src/packet.rs` is the wire format: a fixed header of 16 bytes, an
-- extension header and a payload, with an encoder and a family of decoders that share one layout
-- check. `adapters/tcp.rs` writes packets to a connection and cuts its byte stream into frames again.
-- `transport/request_registry.rs` is the table of requests in flight: sessions open and close,
-- requests are registered, claimed, answered, aborted and timed out, and waiters are woken.
-- `adapters/events.rs` is the bounded pipe between a connection's adapter and its one consumer, under a
-- byte budget (`adapters/budget.rs`). `transport/session_actor.rs` takes what the pipe delivered
-- from a mailbox, registers requests and hands them to the user's handler with a responder; an
-- answer goes through `transport/transport.rs` and `adapters/outbound.rs` into the connection's
-- queue, and the completion of its write (`connection.rs`) ends the request in the registry.
-- `transport/limits.rs` derives the codec's limits from what the user sets, and
-- `transport/connection_state.rs` decides who closes a connection. `transport/transport_server.rs`
-- runs a server: its listeners accept connections under a cap, each session has an actor, a pump and
-- a supervisor, and a shutdown ends them all and reports what it proved. A request, of a client
-- (`transport/transport.rs`) or of a server, registers a waiter, sends its packet and awaits the
-- response under a guard that gives the registration up. A client's transport registers what its peer
-- asks, and forwards it to the consumer, tagged with the connection that it came from.
--
-- The files, with paths below `crates/msgtrans/src/`.
--   Packet        packet.rs: the types, the constructors and the setters.
--     Header        `FixedHeader::to_bytes`, `from_bytes`.
--     Codec         `try_encode`, `frame_layout` and the decoders over it.
--     Compression   `compress_payload`, `decompress_payload` and their theorems; the zlib and zstd
--                   crates are a parameter with laws.
--     RoundTrip, Canonical, Stream, Framing   theorems on the codec.
--   Tcp           adapters/tcp.rs: `OptimizedReadBuffer` as `ReadBuffer`, its resync and its parse
--                 loop, and the read half of `start_event_loop` as `read_loop`.
--     Write         the write half, item by item of the outbound queue.
--     Resync, Framing, Delivery, Chunks, Conservation, Termination, Integrity
--                   theorems on the read half;
--     Written       on the write half, and Link on one side's write half with the other's read half.
--   Limits        transport/limits.rs: the limits of a connection and the two builders.
--     Bounds        theorems on them, and on the codec under them.
--   ConnectionState   transport/connection_state.rs: the methods as steps.
--     Closers       theorems on them.
--   Registry      transport/request_registry.rs: the state. The methods stand in
--     Register      `open_session`, the id counters, `register`, `try_register_waiter`;
--     Respond       `complete_waiter`, `begin_respond`, `finish_respond`, `RespondClaim`;
--     Abort         `abort_waiter`, `abort_request_token`, `abort_all`;
--     Close         `close_session_pending`;
--     Wheel         `mark_timed_out`, `scan_timeout_bucket`;
--     Step          all of them as calls of one step function, and histories of calls.
--     Race          the same file, access by access: a registration, a close and an ending of one
--                   request under any interleaving; Race/Safe is its invariant, Race/Ends what is left.
--     Invariant, Gauge, Tokens, Waiters, Ids, Deadlines, Closing, Aborting, Listed, Orphans,
--     Channels, Answers, Fresh, Admission, Shut, Refused, Resolve   theorems on them.
--   Errors        error.rs: `CloseReason`, `TransportError` and its retry policy.
--   Events        adapters/events.rs and adapters/budget.rs: `EventPipe` and `EventPipeRx`, poll by poll.
--     World         the pipe with an adapter and a consumer, as one step function over their acts.
--     Order, Seen, Drain, Bounded, Consumer, Budget   theorems on it.
--   Messages      transport/mod.rs (`SendOptions`), connection.rs (`WriteCompletion`),
--                 adapters/outbound.rs, `send_confirmed_with` of transport/transport.rs.
--     Respond       `Responder` of transport/session_actor.rs.
--     Options, Settled   theorems on them.
--   Sessions      transport/session_actor.rs: the actor's loop over its mailbox.
--     Batches       theorems on it.
--   Transport     transport/transport.rs: the slot of the current connection, `set_connection`, and the
--                 ends of a generation: `close_session`, `force_close_session`, `retire_generation`.
--     Dispatch      `on_event` and the consumer task of `set_connection`.
--     Generations   theorems on it.
--   Server        transport/transport_server.rs: the state, `remove_session` and the closes.
--     Listen        the listeners, `add_session_with_permit` and the scanner's end;
--     Supervise     the tasks of a session, `pump_teardown` and the supervisor;
--     Serve         `serve`, `run_startup` and `startup_and_supervise`;
--     Shutdown      `stop` and `shutdown_with_timeout`;
--     Turns         all of them, and the public calls, in any interleaving.
--     Capacity, Order, Finality, Live, Listed, Leaks   theorems on them.
--   Requests      `OutboundRequestGuard` of transport/request_registry.rs, and `request` and
--                 `request_with_options` of transport/transport.rs.
--     OfServer      `send`, `send_to_session`, `request_to_session` and their callers in
--                   transport/transport_server.rs.
--     Ends, Answered   theorems on them.
--   Client        event.rs (`ClientEvent`) and transport/client.rs: the forwarding task's round, and
--                 `connect_with_stored_config`.
--     Delivered, Connects   theorems on them, and on Transport/Dispatch.
--   Prelude       what the others share: numbers and tests on them, lists, results, maps.
--
-- The correspondence. A byte is a number below 256 and a buffer a list of bytes. A `usize` is a
-- natural number without a bound; u32 and u64 counters wrap or saturate as the source has it. The
-- text of an error is the data that it is formatted from. A `DashMap` is an association list with a
-- key at most once, a `DashSet` a map to `Unit`. A shared entry or session runtime is changed in its
-- place in the map. Readings of the clock are arguments; instants and durations are
-- numbers of nanoseconds. Oneshot channels are numbered, and a log
-- lists what was sent on which. What a function of the source changes through `&self` or
-- `&mut self`, the model returns.
--
-- Bounds and fuel. The parse loop and the delivery loop run on one more round than the buffer has
-- bytes: each further round starts from a shorter buffer. `out_of_fuel` stands for the end of that
-- bound. No other loop needs fuel.
--
-- Asynchrony. An `await` that can wait is a poll that says where it waits, in the pipe, or an argument
-- that says how the wait ended, in the outbound queue. Where `select!` may choose, the choice is an
-- argument. The registry's methods are atomic steps; for one session and one key, Race takes them
-- apart into their accesses to the shared maps. The server's tasks take turns in any order: a turn is
-- a stretch between two awaits, or shorter where another task can come between, and a wait that is not
-- over is a turn that changes nothing. While a request is sent or awaited, and while a response
-- is written, the other tasks' calls on the registry are a list; the caller of a request may drop its
-- future there.
--
-- Not modelled. Sockets, TLS, timers, logging and the memory pool are left out; the read loop
-- takes what the socket returned as an argument, and whether the event pipe took a packet as a
-- function. In the server, a session's actor and pump are what can end or panic, a panic of a task
-- while it adds a session is left out, and a session is named by its id. The interleaving inside
-- more than one method of the registry, the adapters for WebSocket and QUIC, a client's delays
-- between its attempts to connect, and its shutdown are not modelled.
mod Prelude
pub mod Packet
pub mod Tcp
pub mod Limits
pub mod ConnectionState
pub mod Registry
pub mod Errors
pub mod Events
pub mod Messages
pub mod Sessions
pub mod Transport
pub mod Server
pub mod Requests
pub mod Client
