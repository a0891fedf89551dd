-- ===== src/Lib.antt =====
-- wire_rpc: JSON-RPC 2.0 over byte streams, for one peer (`App`) or many (`MulticastApp`).
--
-- The parts and their files:
--
--   * Envelope: wire_rpc/request.py, response.py, errors.py and context.py. The envelopes, the
--     error codes and the decoded values that a codec hands over.
--   * Execution: wire_rpc/_execution.py. `process_one` is `_process_one`: protocol test, conversion,
--     principal lookup and dispatch under the deadline, encoding, size test, the error replies, the
--     counters and the log line. Its child Message has the batch: `fallback` is `_fallback`,
--     `refuse_batch` is `_refuse_batch`, `process` is `process`, and `batch_loop` its loop.
--   * Handler: wire_rpc/_handler.py. `inspect_handler`, and the call that dispatch makes from its
--     result.
--   * Router: wire_rpc/router.py. The tree of routers and `flatten`, which is `Router._flatten`.
--   * Dispatch: wire_rpc/multicast_app.py, the registration methods and `_dispatch`;
--     Dispatch.Unicast is the `_dispatch` of wire_rpc/app.py, and Dispatch.Metrics is
--     wire_rpc/middleware/metrics.py.
--   * Serve: `_listen` and `_serve_request` of wire_rpc/multicast_app.py, with the slots, the tasks and
--     the locks per client; Serve.Unicast is the `_listen` of wire_rpc/app.py.
--   * Queue: wire_rpc/transports/_queue.py. `PayloadQueue`; its child Tasks runs `put` and `get` of
--     many tasks on one queue, with the event that they sleep on, and Queue.Items says what the
--     operations do to the items.
--   * Auth.Sessions: wire_rpc/auth/sessions/memory.py. The operations of `InMemorySessionStore`,
--     with the expiry heap.
--   * Auth.Text: `identity`, `token_text` and `validated` of wire_rpc/auth/_util.py.
--   * Auth.Base: wire_rpc/auth/sessions/_base.py, tokens and records on top of a store.
--   * Auth.Password and Auth.ApiKey: wire_rpc/auth/credentials/validators.py.
--   * Client: wire_rpc/client.py. The checks on replies, `_locked_exchange` (Client.Exchange),
--     `call` and `batch` (Client.Batch), and `connect`, `close` and `receive_notification`
--     (Client.Connect).
--   * Frames: `_read_frame` and the writes of `send` in wire_rpc/transports/tcp/tcp.py,
--     `_write_frame` of wire_rpc/transports/stdio.py, and `_read` and `_write` of
--     wire_rpc/auth/tcp.py.
--   * Tcp: `TcpMulticastServerTransport` of wire_rpc/transports/tcp/tcp.py with the limiter of
--     _connection_limiter.py; Tcp.Single is `TcpServerTransport`.
--   * Http: wire_rpc/transports/http.py, `HttpServerTransport`; Http.Client is
--     `HttpClientTransport`.
--   * Websocket: wire_rpc/transports/websocket.py, `_WsServer` and its two servers.
--   * Stdio: `_StdoutWriter` of wire_rpc/transports/stdio.py, with its thread, write by write.
--   * Auth.Hmac and Auth.Token: wire_rpc/auth/tcp.py, the handshakes by challenge and by token, on
--     both ends.
--   * Lifecycle: wire_rpc/auth/_util.py, `DependencyLifecycle`, and in Lifecycle.Run the `_run` of
--     wire_rpc/app.py, which wire_rpc/multicast_app.py has as well.
--   * Thread: wire_rpc/transports/thread.py, one direction of a pair of ends.
--   * Prelude: Boolean tests, lists over the native numbers, and Python's `dict`.
--
-- How they interact: a transport puts what it reads into a Queue; an app takes a message from it and
-- calls Execution.Message.process with its `_dispatch`, which looks the method up in the tables that
-- Handler and Router filled and runs the middleware and the handler. The principal that a handler
-- sees comes from the transport, which may ask a session store. In the model, Execution takes the
-- dispatch and the principal lookup as a parameter (`Host`).
--
-- Interleavings. A component whose coroutines share state (Queue.Tasks, Serve, Tcp, Tcp.Single, Http,
-- Websocket, Stdio, Auth.Password) has one function for the code between two waits, and `Step`
-- relates the states before and after one of them; `Reach` has the states that any sequence of these
-- steps gives.
--
-- Choices. Sizes, counters and clock readings are natural numbers, as Python's do not overflow.
-- Where the code subtracts, the model subtracts at most what is there or writes the test as a sum.
-- What a transport receives before a deadline is a list, whose end is the deadline.
-- All loops run over a list and are structural recursion, so no fuel is used. An awaited call of
-- code outside these files is a function of a world `W` that gives a value, an exception of one of
-- the kinds that the code tells apart, or a cancellation.
--
-- Parameters, with what is relied on as named hypotheses: the codec (`Codec`, Execution/Laws.antt),
-- the dispatch and the principal lookup (`Host`), the handlers and the middleware, and the reading of
-- a session record. `heapq` is a list in order of expiry. The digests, the hasher, the lookups of
-- accounts and keys, the JSON codec of the sessions, the exporter of the metrics and the decoding of
-- text are parameters too. Reflection on a handler's signature gives the list of its parameters.
--
-- Not modelled: sockets, listening and the order in which a transport drains its tasks;
-- `TcpClientTransport`, `WsClientTransport` and the child process of stdio; certificates, cookies, JWT
-- and the login over HTTP, which are calls of their libraries; the session backends on SQLite, Redis
-- and Postgres; the checks of constructors; and logging but for the access-log lines.
pub mod Auth
pub mod Client
pub mod Dispatch
pub mod Envelope
pub mod Execution
pub mod Frames
pub mod Handler
pub mod Http
pub mod Lifecycle
pub mod Prelude
pub mod Queue
pub mod Router
pub mod Serve
pub mod Stdio
pub mod Tcp
pub mod Thread
pub mod Websocket
