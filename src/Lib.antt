-- ===== src/Lib.antt =====
-- The server and the client of squimpchat, a chat program over QUIC, and the protocol that they speak.
--
-- The program has a server (src/server/server.c), a client (src/client/client.c), the protocol code
-- that both link (src/shared/sqmp.c, include/sqmp.h), a wrapper around MsQuic
-- (src/shared/msquic_wrapper.c, include/msquic_wrapper.h) and a tool that adds a user to the file of
-- users (data/sqmp_add_user.c). MsQuic's threads call back into the server: `on_connected` allocates a
-- session, `on_stream_recv` hands a packet to its handler, `on_disconnected` frees the session. A
-- login goes through a queue of sessions to the main thread, which checks the credentials and adds the
-- user to a registry; chat messages and keys are passed on between the users of the registry.
--
-- Files:
-- - Base: lists over the native numbers, and `Run`, the outcome of C code: a value, or `fault` for
--   undefined behaviour. `memcpy` and `memcmp` fault when they leave their objects, and a dereference
--   faults on NULL and on an address where nothing is allocated.
-- - Session: `sqmp_session_t`, and the store of the sessions that are allocated.
-- - Queue: the auth queue of sqmp.c, a list through the sessions' `next` fields. Queue.Chains has what
--   the pointers stand for, Queue.Fifo the two operations, Queue.Requeue a session that is enqueued
--   twice, Queue.Links what the functions write.
-- - Registry: `g_registry` of sqmp.c and its four operations. Registry.Lookup has the directory that
--   it stands for (`view`), Registry.Slots the scan for a free slot, Registry.Insert and
--   Registry.Remove the operations in terms of the directory.
-- - Wire: packets as bytes. Wire.Packets builds them, Wire.Fields and Wire.Reads read them back,
--   Wire.Total says that reads inside of a packet return. Wire.Messages and Wire.Sizes have all the
--   packets of the program in one type.
-- - Net: connections, streams and `sqmp_stream_send` of msquic_wrapper.c, and the record of the calls
--   of MsQuic, with the handles that it hands over to the program.
-- - Quic: the rest of msquic_wrapper.c: the context (`sqmp_quic_init`, `sqmp_quic_listen`,
--   `sqmp_quic_destroy`); Quic.Callbacks has `conn_cb`, `stream_cb` and `listener_cb`, with the
--   program behind them as the interface `Callbacks`; Quic.Connect has `sqmp_quic_connect`,
--   `sqmp_quic_disconnect` and `sqmp_stream_open`. Quic.Held says what is open after a sequence of
--   calls; Quic.Context and Quic.Opened have the lemmas on it.
-- - Server: the globals; Server.Handlers has the handlers of sqmp.c, Server.Callbacks the callbacks of
--   server.c and the receive event of the wrapper, Server.Users `verify_credentials`, Server.Worker
--   the main loop and the shutdown. The other modules of Server have the theorems: Chat, Keys, Hello,
--   AuthReq, Guards (packets), Login and Leave (users), Farewell (the shutdown), Exclusive, Kept,
--   HandlersKept, Received (packets of any bytes), Sound and Heard (packets that are long enough),
--   Answered, Steady and Lasting (many of them), Invariant, Passes and Steps (the invariant), Waiting
--   and Drained (the main loop on the whole queue), Turns the main loop in small steps, Whole a login
--   in these steps that nobody interrupts, Moves, TurnsHold, Quiet and Interleaved the steps and the
--   callbacks in any order, Impostor and Race one callback between them, Requeued a second AUTH_REQ
--   before them. Server.Wrapper gives the server to the wrapper's callbacks, Server.Setup is the
--   beginning of `main`, Server.Handles is on handles and memory when connections and streams begin
--   and end.
-- - Client: the client's handlers, of sqmp.c and of client.c; Client.Crypto has `encrypt_chat` and
--   `decrypt_chat`, Client.Chat `send_chat` and a message that arrives, Client.Replies the server's
--   answers, Client.Handled a packet of any bytes, Client.Sound and Client.Heard packets that are long
--   enough; Client.Login is `sqmp_login`, Client.Commands the command loop, Client.Main the beginning
--   and the end of `main`, Client.Wrapper the client behind the wrapper's callbacks. Client.Parsed is
--   on the lines of the user, Client.SignIn, Client.Admitted and Client.Joined on the login,
--   Client.Sent on a message from client to client, Client.Stale on a key that comes late,
--   Client.Orphan on a stream that the server starts, Client.Events and Client.Waits on the wait for
--   the connection, Client.Started on the set-up.
-- - AddUser: data/sqmp_add_user.c; AddUser.File, AddUser.Digits and AddUser.RoundTrip say how its line
--   is read, AddUser.Colons which names are never found.
-- - Trace: `sqmp_dbg_recv_pkt` of sqmp.c; Trace.Shown says what it prints of the packets of the
--   program.
-- - The modules named Tests have runs at concrete inputs.
--
-- The model:
-- - A pointer is an address, `none` for NULL; the stores of sessions, streams and connections are
--   functions from addresses. A byte is a number, and a packet is the list of the bytes of its buffer.
--   The structs are packed, so that the offsets are the sums of the sizes; integers are little-endian.
--   The session counter wraps at 2 ^ 32.
-- - What `malloc`, `calloc` and MsQuic answer is a parameter: `answers n` of Net is the answer to
--   their `n`-th call, and `fresh n` the address or handle that it gives out. In Server.Callbacks what
--   `calloc` returns for a session is an argument. The content of the file of users and the lines that
--   a user types are arguments.
-- - Each function that holds a mutex, each callback and each pass of the main loop is one step; in
--   Server.Turns a pass is divided into ten steps, so that callbacks can come between them; the scan
--   of the entries by `sqmp_registry_add`, its writes to an entry and the three writes behind it are
--   one step each, so that what comes inside of these is not covered. Every loop is over the registry,
--   the lines of the file, or the eight versions of a HELLO, and is structural recursion, but for the
--   main loop (`worker_loop`): its passes are a list of the signals that they find, and Server.Drained
--   shows how many it makes until it waits.
-- - OpenSSL is a parameter, `OpenSsl` of Client.Crypto; `IsOpenSsl` has what is assumed of it.
--   `send_chat` is two steps, since another thread receives the key that it waits for; so are
--   `sqmp_quic_connect` and `sqmp_quic_disconnect` divided at their waits. A turn of a thread that
--   waits changes nothing if the semaphore is 0.
-- - A program has one QUIC context, so that a connection does not hold a pointer to it.
-- - `sscanf` on characters that are not hexadecimal counts as undefined behaviour.
-- - Not modelled: what the server prints, and what debug builds print of packets that they send, the
--   set-up of signals, readline and the terminal, and the bundled headers of MsQuic.
pub mod Base
pub mod Registry
pub mod Wire
pub mod Session
pub mod Queue
pub mod Net
pub mod Quic
pub mod Server
pub mod Client
pub mod AddUser
pub mod Trace
