-- ===== src/Ffi/Lifecycle/Clients.antt =====
-- The life of a client's socket.
use nanwei_api_rust.Prelude.{
  ap, ℕ, ◌≡◌, refl, Bool, true, false, List, [], Option, none, some, arith, Bool-cases, inl, inr,
  nat_eq,
}
use nanwei_api_rust.Prelude.Int.{ℤ, pos, negsuc, int_eq}
use nanwei_api_rust.Prelude.Map.{get, remove, get-insert_self, get-remove_self}
use nanwei_api_rust.Prelude.Run.{Run, ok, err, panicked, unwrap}
use nanwei_api_rust.Prelude.Text.{is_utf8}
use nanwei_api_rust.Quiche.{Quiche, success}
use nanwei_api_rust.Os.{Os}
use nanwei_api_rust.World.{DtpConnection, update}
use nanwei_api_rust.Api.{DtpClient, DtpServer, World, has_sock_entry, has_client, has_server}
use nanwei_api_rust.Client.{connect}
use nanwei_api_rust.Server.Create.{bind}
use nanwei_api_rust.Ffi.Sockets.{
  dtp_bind, bound, add_server, dtp_socket_close, start_client, client_started, dtp_connect,
}
use nanwei_api_rust.Ffi.Close.{Closed, close_established, close_client, dtp_close}

module _ {Conn : Type 0} (q : Quiche Conn) where
  -- A number that a client uses can be neither closed nor connected again.
  client_refuses :
      (os : Os Conn) (w : World Conn) (sock : ℤ) (ip : List ℕ) (port : ℤ) (config : Option ℕ)
      → has_client w.api sock ≡ true
      → (dtp_socket_close w sock ≡ (negsuc 0, w))
        × (dtp_connect q os w sock ip port config ≡ ok (w, none))
  unfolding dtp_socket_close dtp_connect
  client_refuses os w sock ip port none c = (ground arith, refl)
  client_refuses os w sock ip port (some config) c = (ground arith, ground arith)

  client_started_inv :
      (w w' : World Conn) (sock : ℤ) (r : Run (DtpClient × Conn)) (io : DtpConnection)
      → client_started w sock r ≡ ok (w', some io)
      → (client : DtpClient) × (c : Conn) × (w' ≡ (start_client w sock client c).0)
        × (io ≡ (start_client w sock client c).1)
  unfolding client_started
  client_started_inv w w' sock (ok (client, c)) io h = (client, c, ground arith, ground arith)
  client_started_inv w w' sock err io h = absurd (ground arith)
  client_started_inv w w' sock panicked io h = absurd (ground arith)

  pub dtp_connect_inv :
      (os : Os Conn) (w w' : World Conn) (sock : ℤ) (ip : List ℕ) (port : ℤ) (config : Option ℕ)
      (io : DtpConnection)
      → dtp_connect q os w sock ip port config ≡ ok (w', some io)
      → (client : DtpClient) × (c : Conn) × (w' ≡ (start_client w sock client c).0)
        × (io ≡ (start_client w sock client c).1)
  unfolding dtp_connect
  dtp_connect_inv os w w' sock ip port none io h = absurd (ground arith)
  dtp_connect_inv os w w' sock ip port (some config) io h =
      elim (Bool-cases (has_sock_entry w.api sock)) [
        | inr e ↦ absurd (ground arith)
        | inl e ↦ elim (Bool-cases (has_client w.api sock)) [
          | inl s ↦ absurd (ground arith)
          | inr s ↦ elim (Bool-cases (is_utf8 ip)) [
            | inl u ↦
                client_started_inv w w' sock (unwrap (connect q os ip port sock w.next_ref)) io
                  (rw (e, s, u) at h)
            | inr u ↦ absurd (ground arith)
          ]
        ]
      ]

  -- A socket that `dtp_connect` has connected is held by the client's thread, which works on the very
  -- connection of the handle. The handle is a client's and names the socket, which cannot be connected
  -- again and cannot be closed.
  pub connect_once :
      (os os' : Os Conn) (w w' : World Conn) (sock : ℤ) (ip ip' : List ℕ) (port port' : ℤ)
      (config config' : Option ℕ) (io : DtpConnection)
      → dtp_connect q os w sock ip port config ≡ ok (w', some io)
      → (client : DtpClient) × (get sock w'.api.client_handles ≡ some client)
        × (client.conn ≡ io.conn)
        × (client.waker ≡ io.waker)
        × (io.is_server_side ≡ false)
        × (io.sockid ≡ some sock)
        × (dtp_socket_close w' sock ≡ (negsuc 0, w'))
        × (dtp_connect q os' w' sock ip' port' config' ≡ ok (w', none))
  unfolding start_client
  connect_once os os' w w' sock ip ip' port port' config config' io h =
      let (client, c, x, y) = dtp_connect_inv os w w' sock ip port config io h in
      let held : get sock w'.api.client_handles ≡ some client =
        rw x (get-insert_self sock client w.api.client_handles) in
      let used : has_client w'.api sock ≡ true = ground arith in
      let (r₁, r₂) = client_refuses os' w' sock ip' port' config' used in
      (client, held, rw y refl, rw y refl, rw y refl, rw y refl, r₁, r₂)

  -- The end of a client whose socket has an entry in the tables, a running thread, and neither a
  -- server nor an entry in the table of clients that do not run: if its connection is open and
  -- established, the close is accepted, and the client's thread is woken and ends well, then `dtp_close`
  -- returns 1 and frees the handle. The socket is then no client's, and `dtp_socket_close` takes it back.
  pub close_then_socket_close :
      (wake : ℕ → Bool) (join : DtpClient → Conn → Option Conn) (debug : Bool) (w : World Conn)
      (io : DtpConnection) (sock : ℤ) (client : DtpClient) (c : Conn)
      → io.is_server_side ≡ false
      → io.sockid ≡ some sock
      → has_sock_entry w.api sock ≡ true
      → has_server w.api sock ≡ false
      → get sock w.api.client_map ≡ none
      → get sock w.api.client_handles ≡ some client
      → q.is_closed (w.conn io.conn) ≡ false
      → q.is_established (w.conn io.conn) ≡ true
      → (q.close (w.conn io.conn) true 0 []).0 ≡ success tt
      → wake io.waker ≡ true
      → join client (q.close (w.conn io.conn) true 0 []).1 ≡ some c
      → (w' : World Conn) × (dtp_close q wake join debug w (some io)
          ≡ ok (record { ret = pos 1; freed = true; woken = some io.waker; world = w' }))
        × (has_client w'.api sock ≡ false)
        × ((dtp_socket_close w' sock).0 ≡ pos 0)
  unfolding dtp_close close_client close_established dtp_socket_close
  close_then_socket_close wake join debug w io sock client c side id entry server m held open_ est
        closing awake joined =
      (
        record w {
          conn = update w.conn io.conn c;
          api = record (w.api) { client_handles = remove sock w.api.client_handles };
        },
        ground arith,
        ground (arith, get-remove_self sock w.api.client_handles),
        ground (arith, get-remove_self sock w.api.client_handles),
      )

  -- The handle that `dtp_connect` has returned, after its connection has been closed by the peer or by a
  -- timeout, with the tables as `dtp_connect` left them: `dtp_close` returns 1 and frees the handle, but
  -- leaves the client in the table, so that then `dtp_socket_close` of the socket returns -1 and
  -- `dtp_connect` on it returns null.
  pub dtp_connect-dtp_close :
      (wake : ℕ → Bool) (join : DtpClient → Conn → Option Conn) (debug : Bool) (os os' : Os Conn)
      (w w' : World Conn) (conn : ℕ → Conn) (sock : ℤ) (ip ip' : List ℕ) (port port' : ℤ)
      (config config' : Option ℕ) (io : DtpConnection)
      → dtp_connect q os w sock ip port config ≡ ok (w', some io)
      → q.is_closed (conn io.conn) ≡ true
      → (r : Closed Conn) × (dtp_close q wake join debug (record w' { conn = conn }) (some io)
          ≡ ok r)
        × (r.ret ≡ pos 1)
        × (r.freed ≡ true)
        × ((dtp_socket_close r.world sock).0 ≡ negsuc 0)
        × (dtp_connect q os' r.world sock ip' port' config' ≡ ok (r.world, none))
  unfolding dtp_close close_client
  dtp_connect-dtp_close wake join debug os os' w w' conn sock ip ip' port port' config config' io h
        cl =
      let (client, held, _, _, side, _, _, _) =
        connect_once os os' w w' sock ip ip' port port' config config' io h in
      let used : has_client w'.api sock ≡ true = ground arith in
      let (x, y) = client_refuses os' (record w' { conn = conn }) sock ip' port' config' used in
      (
        record { ret = pos 1; freed = true; woken = none; world = record w' { conn = conn } },
        ground arith,
        refl,
        refl,
        ap (λ r. r.0) x,
        y,
      )

  -- `dtp_bind` does not ask whether a client runs on the socket: with a socket in the system it binds
  -- the number of a running client again. The number is then both a client's and a server's, and its
  -- entry is the server's socket.
  pub bind_over_client :
      (os : Os Conn) (w : World Conn) (sock : ℤ) (ip : List ℕ) (port : ℤ) (server : DtpServer)
      → has_sock_entry w.api sock ≡ true
      → has_client w.api sock ≡ true
      → has_server w.api sock ≡ false
      → is_utf8 ip ≡ true
      → bind os ip port sock w.next_ref ≡ ok server
      → (w' : World Conn) × (dtp_bind os w sock ip port ≡ ok (pos 1, w'))
        × (has_client w'.api sock ≡ true)
        × (has_server w'.api sock ≡ true)
        × (get sock w'.api.sock_map ≡ some (some server.socket))
  unfolding dtp_bind bound add_server
  bind_over_client os w sock ip port server e c s u b = (
    add_server w sock server,
    rw (dtp_bind, e, s, u, b) refl,
    c,
    ground (arith, get-insert_self sock server w.api.server_map),
    get-insert_self sock (some server.socket) w.api.sock_map,
  )
