-- ===== src/Lib.antt =====
-- nanwei_api_rust: a C interface to QUIC in the manner of sockets.
--
-- A C program asks for a number with `dtp_socket`, turns it into a server with `dtp_bind` and
-- `dtp_listen` or into a client with `dtp_connect`, takes a server's new connections with
-- `dtp_accept`, and works on a connection with `dtp_send`, `dtp_recv` and `dtp_close`. Every server and
-- every client has a thread of its own, which moves packets between the QUIC library and a UDP socket.
-- The threads and the functions share connections, the status map of a server (`SharedStreams`) and
-- the tables of `DtpApi`, each behind an `Arc<Mutex<_>>`.
--
-- Parts:
--   Prelude     lists, numbers, `HashMap` as an association list (Prelude/Map), the casts to 32 and 64
--               bits (Prelude/Int), and code that returns, fails or panics (Prelude/Run)
--   Quiche      the QUIC library as a parameter, with what is relied on (`SendLaws`, `IdLaws`)
--   Os          the answers of the operating system while a client or a server is set up
--   World       src/lib.rs and src/server.rs: the data that threads share
--   Api         src/lib.rs: `DtpApi` with its tables, and the state `World` of the whole program; the
--               invariant of the tables is in Api/Invariant
--   Outgoing    the loop that sends packets, which src/client.rs and src/server.rs both have
--   Client      src/client.rs: `hex_dump`, `DtpClient::connect`, and `client_loop` in Client/Loop
--   Message     src/message.rs, and `send` of src/lib.rs
--   Server      src/server.rs: tokens (Server/Token), answers that a stream takes in parts
--               (Server/Partial), `DtpServer` (Server/Create), and `server_loop`, its read loop in
--               Server/Packet, its timeouts, write loop and collection in Server/Collect, and the
--               whole of it in Server/Loop
--   Ffi         src/ffi.rs: error codes (Ffi/Errors), sockets (Ffi/Sockets), `dtp_accept`
--               (Ffi/Accept), `dtp_recv` and `dtp_send` (Ffi/Transfer), `dtp_close` (Ffi/Close),
--               the status map that they share with the servers (Ffi/Status), sequences of calls
--               (Ffi/Lifecycle), and configurations (Ffi/Config)
--   Main        src/main.rs: `dtp_util_send` and `dtp_util_recv`, and the threads that `main` starts
--               (Main/Tasks), after its set-up (Main/Setup), in
--               which the tasks of the clients take turns
--   System      all of it together: a server's thread, the clients' threads and the calls of a C
--               program as steps on one state, in any order. System/Sound has the invariant,
--               System/Effect what each step does, System/Preserve that it keeps the invariant,
--               System/Lifecycle the life of a connection as a specification, and System/Outcomes,
--               System/Service and System/Growth what follows
--   Tests       the theorems at concrete inputs
--
-- A function of the source has the same name here. It takes the state that it works on and returns the
-- new one. A reference to a shared object is a number, and the state says what it refers to, so two
-- handles with one number share their object. A part of a function that runs under one lock is one
-- step. A panic is `panicked`; so is a thread that locks a mutex which it holds. In System a packet, the
-- timeout of a client, the sending for a client, a collection, a turn of a client's thread and a call are
-- one step each; a `dtp_accept` that blocks is its last pass, since the passes before it change nothing.
-- There is one server in it: other servers work on objects of their own. Between two steps
-- the entries of its hash maps may come in another order, as the order of a `HashMap` is not specified.
--
-- Bounds: `next_fd` wraps around at 2^31, and the results on `dtp_socket` are about its first
-- 2^31 - 1 calls. The loop that sends packets runs on fuel, since the QUIC library decides how many
-- packets there are; more fuel than a connection has packets is enough. Lengths of buffers that become
-- an `int` are below 2^31.
--
-- Not modelled: how `main` of src/main.rs joins its threads, `debug_init` and the examples;
-- logging, except where a message takes a lock or unwraps something; sleeping; the poll itself, but for
-- the timeout that it is given; steps that are finer than those above, such as a `dtp_send` between the
-- parsing of a packet and its `recv`; a mutex that a panic has poisoned; and memory that C programs
-- misuse.
pub mod Prelude
pub mod Quiche
pub mod World
pub mod Api
pub mod Os
pub mod Outgoing
pub mod Message
pub mod Main
pub mod Client
pub mod Server
pub mod Ffi
pub mod System
pub mod Tests
