-- ===== src/Ffi/Sockets.antt =====
-- The functions of src/ffi.rs that give out, set up and take back sockets: `dtp_socket`,
-- `dtp_socket_close`, `dtp_bind`, `dtp_listen`, `dtp_connect`. Each holds the lock on `DTP_API_MAP`
-- for the whole of its work and so is one step on the world. The addresses are C strings that are not
-- null, as the code takes for granted.
pub mod Keeps
use nanwei_api_rust.Prelude.{
  ℕ, ◌+◌, Bool, true, false, not, List, [], ◌∷◌, Option, none, some, if◌then◌else◌, ◌==◌, nat_eq,
}
use nanwei_api_rust.Prelude.Int.{ℤ, pos, negsuc, int_eq}
use nanwei_api_rust.Prelude.Map.{get, insert, remove}
use nanwei_api_rust.Prelude.Run.{Run, ok, err, panicked, ◌>>=◌, ◌>>◌, expect, unwrap}
use nanwei_api_rust.Prelude.Text.{is_utf8}
use nanwei_api_rust.Quiche.{Quiche}
use nanwei_api_rust.Os.{Os}
use nanwei_api_rust.World.{DtpConnection, update}
use nanwei_api_rust.Api.{
  DtpClient, DtpServer, DtpApi, World, create_udp_fd, has_server, has_client, has_sock_entry,
}
use nanwei_api_rust.Client.{connect}
use nanwei_api_rust.Server.Create.{bind, set_config}

pub record DtpServerConns : Type 0 where
  pub streams : ℕ
  pub waker : ℕ
  pub sockid : ℤ

module _ {Conn : Type 0} where
  unfoldable pub dtp_socket : World Conn → ℤ × World Conn
  dtp_socket w = let (api, fd) = create_udp_fd w.api in (fd, record w { api = api })

  unfoldable pub dtp_socket_close : World Conn → ℤ → ℤ × World Conn
  dtp_socket_close w sock =
      if not (has_sock_entry w.api sock)
      then (negsuc 0, w)
      else (if has_client w.api sock
          then (negsuc 0, w)
          else (if has_server w.api sock then (negsuc 0, w) else (
            pos 0,
            record w { api = record (w.api) { sock_map = remove sock w.api.sock_map } },
          )))

  -- A server with its socket, its waker and its shared state enters the world.
  unfoldable pub add_server : World Conn → ℤ → DtpServer → World Conn
  add_server w sock server = record w {
    streams = update w.streams server.shared_streams [];
    next_ref = w.next_ref + 3;
    api = record (w.api) {
      sock_map = insert sock (some server.socket) w.api.sock_map;
      server_map = insert sock server w.api.server_map;
    };
  }

  unfoldable pub bound : World Conn → ℤ → Run DtpServer → Run (ℤ × World Conn)
  bound w sock (ok server) = ok (pos 1, add_server w sock server)
  bound w sock err = ok (negsuc 0, w)
  bound w sock panicked = panicked

  unfoldable pub dtp_bind : Os Conn → World Conn → ℤ → List ℕ → ℤ → Run (ℤ × World Conn)
  dtp_bind os w sock ip port =
      if not (has_sock_entry w.api sock)
      then ok (negsuc 0, w)
      else (if has_server w.api sock
          then ok (negsuc 0, w)
          else (do expect (is_utf8 ip); bound w sock (bind os ip port sock w.next_ref)))

  -- The server leaves `server_map` and is run by a thread.
  unfoldable pub start_server : World Conn → ℤ → DtpServer → World Conn × DtpServerConns
  start_server w sock server = (
    record w {
      api = record (w.api) {
        server_map = remove sock w.api.server_map;
        server_handles = insert sock server w.api.server_handles;
        server_shared_map = insert sock server.shared_streams w.api.server_shared_map;
        server_waker_map = insert sock server.waker w.api.server_waker_map;
      };
    },
    record { streams = server.shared_streams; waker = server.waker; sockid = sock },
  )

  -- `none` is the null pointer.
  unfoldable pub dtp_listen : World Conn → ℤ → ℕ → World Conn × Option DtpServerConns
  dtp_listen w sock config =
      if not (has_sock_entry w.api sock)
      then (w, none)
      else (if not (has_server w.api sock) then (w, none) else elim (get sock w.api.server_map) [
        | none ↦ (w, none)
        | some s ↦ let (w', conns) = start_server w sock (set_config s config).0 in (w', some conns)
      ])

  -- A client with its connection, its socket and its waker enters the world, run by a thread.
  unfoldable pub start_client : World Conn → ℤ → DtpClient → Conn → World Conn × DtpConnection
  start_client w sock client c = (
    record w {
      conn = update w.conn client.conn c;
      next_ref = w.next_ref + 3;
      api = record (w.api) {
        sock_map = insert sock (some client.socket) w.api.sock_map;
        client_handles = insert sock client w.api.client_handles;
      };
    },
    record {
      is_server_side = false;
      conn = client.conn;
      waker = client.waker;
      sockid = some sock;
      pconns = none;
      conn_id = none;
    },
  )

  unfoldable pub client_started :
      World Conn → ℤ → Run (DtpClient × Conn) → Run (World Conn × Option DtpConnection)
  client_started w sock (ok (client, c)) =
      let (w', io) = start_client w sock client c in ok (w', some io)
  client_started w sock err = err
  client_started w sock panicked = panicked

  unfoldable pub dtp_connect :
      Quiche Conn
      → Os Conn
      → World Conn
      → ℤ
      → List ℕ
      → ℤ
      → (config : Option ℕ) → Run (World Conn × Option DtpConnection)
  dtp_connect q os w sock ip port none = ok (w, none)
  dtp_connect q os w sock ip port (some config) =
      if not (has_sock_entry w.api sock)
      then ok (w, none)
      else (if has_client w.api sock then ok (w, none) else (do
        expect (is_utf8 ip)
        client_started w sock (unwrap (connect q os ip port sock w.next_ref))))
