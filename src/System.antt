-- ===== src/System.antt =====
-- The parts of the program together: the thread of a server (`server_loop` in src/server.rs), the
-- threads of clients (`client_loop` in src/client.rs), and the threads of the C program, which call the
-- functions of src/ffi.rs, in any order. A step is the work that a thread does on the shared objects
-- without waiting: a packet, the timeout of a client, the sending for a client, a collection, or a call.
-- Between them the entries of the hash maps may come in another order.
pub mod Sound
pub mod Effect
pub mod Preserve
pub mod Lifecycle
pub mod Growth
pub mod Service
pub mod Outcomes
use nanwei_api_rust.Prelude.{ℕ, ◌<◌, ◌≡◌, Bool, List, [], ◌∷◌, Option, some, nat_eq, bytes_eq}
use nanwei_api_rust.Prelude.Int.{ℤ, int_eq}
use nanwei_api_rust.Prelude.Map.{get, IsUnique}
use nanwei_api_rust.Prelude.Run.{ok}
use nanwei_api_rust.Quiche.{Quiche}
use nanwei_api_rust.Os.{Os, IoErrorKind}
use nanwei_api_rust.Outgoing.{Datagram}
use nanwei_api_rust.World.{SharedStreams, DtpConnection, update}
use nanwei_api_rust.Api.{DtpClient, DtpApi, World}
use nanwei_api_rust.Client.Loop.{Event, Progress, ended, waiting, client_round}
use nanwei_api_rust.Ffi.Sockets.{
  DtpServerConns, dtp_socket, dtp_socket_close, dtp_bind, dtp_listen, dtp_connect,
}
use nanwei_api_rust.Ffi.Accept.{returned, dtp_accept}
use nanwei_api_rust.Ffi.Close.{Closed, dtp_close}
use nanwei_api_rust.Ffi.Transfer.{Sent, dtp_send, dtp_recv}
use nanwei_api_rust.Server.Packet.{Client, Server, Env, Control, read_packet}
use nanwei_api_rust.Server.Collect.{collect, flush_client, time_out}

-- A server with the rest of the world. `client_status` of the server is what the reference `shared`
-- refers to, and `streams` says what the other references to such maps do. `given` are the connections
-- that `dtp_accept` has handed out, newest first; the program does not keep them.
pub record System (Conn : Type 0) : Type 0 where
  pub server : Server Conn
  pub shared : ℕ
  pub streams : ℕ → SharedStreams
  pub api : DtpApi
  pub given : List ℕ

-- What the steps take from outside the repository, and the waiting for a client's thread.
pub record Program (Conn : Type 0) : Type 0 where
  pub quiche : Quiche Conn
  pub env : Env Conn
  pub wake : ℕ → Bool
  pub join : DtpClient → Conn → Option Conn
  pub debug : Bool
  pub client_send_to : List Datagram → Datagram → Option IoErrorKind

module _ {Conn : Type 0} where
  abbrev pub world_of : System Conn → World Conn
  world_of sys = record {
    conn = sys.server.conn;
    streams = update sys.streams sys.shared sys.server.client_status;
    api = sys.api;
    next_ref = sys.server.next_conn;
  }

  abbrev pub with_world : System Conn → World Conn → System Conn
  with_world sys w = record sys {
    server = record (sys.server) {
      client_status = w.streams sys.shared;
      conn = w.conn;
      next_conn = w.next_ref;
    };
    streams = w.streams;
    api = w.api;
  }

  abbrev pub with_conn : System Conn → (ℕ → Conn) → System Conn
  with_conn sys conn = record sys { server = record (sys.server) { conn = conn } }

  abbrev pub after_round : Progress Conn → Conn
  after_round (ended c outbox) = c
  after_round (waiting c outbox) = c

  pub data Step (p : Program Conn) (sys : System Conn) : System Conn → Type 0 where
    -- The server's thread.
    packet :
        (d : Datagram) (control : Control) (s : Server Conn)
        → read_packet p.quiche p.env sys.server d ≡ ok (control, s)
        → Step p sys (record sys { server = s })
    expired :
        (k : List ℕ) (client : Client)
        → get k sys.server.clients ≡ some client
        → Step p sys (record sys { server = time_out p.quiche p.env sys.server ((k, client) ∷ []) })
    flushed :
        (k : List ℕ) (client : Client) (n : ℕ) (s : Server Conn)
        → get k sys.server.clients ≡ some client
        → flush_client p.quiche p.env n sys.server client ≡ some (ok s)
        → Step p sys (record sys { server = s })
    collected :
        (s : Server Conn)
        → collect p.quiche p.env sys.server ≡ ok s
        → Step p sys (record sys { server = s })
    -- The order of a `HashMap` is its own affair: a step that only changes the order of the entries.
    rehashed :
        (m : SharedStreams) (clients : List (List ℕ × Client))
        → IsUnique m
        → IsUnique clients
        → ((k : List ℕ) → get k m ≡ get k sys.server.client_status)
        → ((k : List ℕ) → get k clients ≡ get k sys.server.clients)
        → Step p sys
            (record sys { server = record (sys.server) { client_status = m; clients = clients } })
    -- The thread of a client.
    client_turn :
        (sock : ℤ) (client : DtpClient) (n : ℕ) (outbox : List Datagram) (event : Event)
        (progress : Progress Conn)
        → get sock sys.api.client_handles ≡ some client
        → client_round p.quiche p.client_send_to n (sys.server.conn client.conn) outbox event
          ≡ some (ok progress)
        → Step p sys (with_conn sys (update sys.server.conn client.conn (after_round progress)))
    -- Calls of the C program. A call of `dtp_accept` is its last pass; the passes before it change
    -- nothing.
    accepting :
        (conns : DtpServerConns) (is_block : Bool) (io : DtpConnection) (m : SharedStreams)
        → conns.streams ≡ sys.shared
        → dtp_accept (some conns) is_block (sys.server.client_status ∷ [])
          ≡ returned (some io) (some m)
        → Step p sys (record sys {
          server = record (sys.server) { client_status = m };
          given = io.conn ∷ sys.given;
        })
    closing :
        (io : Option DtpConnection) (r : Closed Conn)
        → dtp_close p.quiche p.wake p.join p.debug (world_of sys) io ≡ ok r
        → Step p sys (with_world sys r.world)
    sending :
        (io : Option DtpConnection) (buf : List ℕ) (fin : Bool) (id : ℤ) (r : Sent (ℕ → Conn))
        → dtp_send p.quiche p.wake sys.server.conn io buf fin id ≡ ok r
        → Step p sys (with_conn sys r.state)
    receiving :
        (io : Option DtpConnection) (buflen : ℤ) (id : Option ℤ) (fin : Option Bool)
        → Step p sys (with_conn sys (dtp_recv p.quiche sys.server.conn io buflen id fin).state)
    opening : Step p sys (with_world sys (dtp_socket (world_of sys)).1)
    dropping : (sock : ℤ) → Step p sys (with_world sys (dtp_socket_close (world_of sys) sock).1)
    binding :
        (os : Os Conn) (sock : ℤ) (ip : List ℕ) (port : ℤ) (r : ℤ × World Conn)
        → dtp_bind os (world_of sys) sock ip port ≡ ok r
        → Step p sys (with_world sys r.1)
    listening :
        (sock : ℤ) (config : ℕ)
        → Step p sys (with_world sys (dtp_listen (world_of sys) sock config).0)
    connecting :
        (os : Os Conn) (sock : ℤ) (ip : List ℕ) (port : ℤ) (config : Option ℕ)
        (r : World Conn × Option DtpConnection)
        → dtp_connect p.quiche os (world_of sys) sock ip port config ≡ ok r
        → Step p sys (with_world sys r.0)

  pub data Reach (p : Program Conn) (sys : System Conn) : System Conn → Type 0 where
    stay : Reach p sys sys
    next : {a b : System Conn} → Reach p sys a → Step p a b → Reach p sys b

  -- The server has started; it has no clients yet.
  pub record Start (sys : System Conn) : Type 0 where
    pub no_clients : sys.server.clients ≡ []
    pub no_status : sys.server.client_status ≡ []
    pub none_given : sys.given ≡ []
    pub allocated : sys.shared < sys.server.next_conn
