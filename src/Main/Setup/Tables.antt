-- ===== src/Main/Setup/Tables.antt =====
-- What the calls of `main` in src/main.rs do to the numbers and clients of the tables.
use nanwei_api_rust.Prelude.{
  ℕ, ◌+◌, ◌<◌, ◌≡◌, ◌≢◌, refl, ◌∙◌, true, false, ◌||◌, List, Option, none, some, arith, Bool-cases,
  inl, inr, nat_eq, ◌==◌,
}
use nanwei_api_rust.Prelude.Int.{ℤ, pos, negsuc, int_eq, int_beq_iff}
use nanwei_api_rust.Prelude.Map.{get, get-insert}
use nanwei_api_rust.Prelude.Run.{Run, ok, err, panicked, >>=-ok}
use nanwei_api_rust.Prelude.Text.{is_utf8}
use nanwei_api_rust.Quiche.{Quiche}
use nanwei_api_rust.Os.{Os}
use nanwei_api_rust.World.{DtpConnection}
use nanwei_api_rust.Api.{
  DtpServer, World, initial, create_udp_fd, has_sock_entry, has_client, has_server,
}
use nanwei_api_rust.Server.Create.{bind}
use nanwei_api_rust.Ffi.Sockets.{
  DtpServerConns, dtp_socket, dtp_bind, bound, add_server, dtp_listen, start_server, dtp_connect,
  start_client,
}
use nanwei_api_rust.Ffi.Lifecycle.Clients.{dtp_connect_inv}
use nanwei_api_rust.Ffi.Lifecycle.Null.{null_refused}
use nanwei_api_rust.Main.Setup.{localhost, listen_on}

module _ {Conn : Type 0} where
  pub socket_entry :
      (w : World Conn) (k : ℤ)
      → has_sock_entry (dtp_socket w).1.api k ≡ (w.api.next_fd == k) || has_sock_entry w.api k
  unfolding dtp_socket create_udp_fd
  socket_entry w k = ground (arith, get-insert w.api.next_fd k none w.api.sock_map)

  pub socket_client :
      (w : World Conn) (k : ℤ) → has_client (dtp_socket w).1.api k ≡ has_client w.api k
  unfolding dtp_socket create_udp_fd
  socket_client w k = refl

  pub socket_number : (w : World Conn) → (dtp_socket w).0 ≡ w.api.next_fd
  unfolding dtp_socket create_udp_fd
  socket_number w = refl

  pub socket_after :
      (w : World Conn) (m : ℕ)
      → w.api.next_fd ≡ pos m
      → m < 2147483647
      → (dtp_socket w).1.api.next_fd ≡ pos (1 + m)
  unfolding dtp_socket create_udp_fd
  socket_after w m e lt = rw e (ground arith)

  -- What `dtp_connect` on a socket does to the tables.
  pub record Connects (w w' : World Conn) (sock : ℤ) (o : Option DtpConnection) : Type 0 where
    pub same_next : w'.api.next_fd ≡ w.api.next_fd
    pub entries : (k : ℤ) → has_sock_entry w.api k ≡ true → has_sock_entry w'.api k ≡ true
    pub clients : (k : ℤ) → sock ≢ k → has_client w'.api k ≡ has_client w.api k
    pub sockid : (io : DtpConnection) → o ≡ some io → io.sockid ≡ some sock

  pub dtp_connect-Connects :
      (q : Quiche Conn) (os : Os Conn) (w : World Conn) (sock : ℤ) (ip : List ℕ) (port : ℤ)
      (config : Option ℕ) (w' : World Conn) (o : Option DtpConnection)
      → dtp_connect q os w sock ip port config ≡ ok (w', o)
      → Connects w w' sock o
  unfolding start_client
  dtp_connect-Connects q os w sock ip port config w' none h =
      let (_, same) = null_refused q os w w' sock ip port config h in
      rw same record {
        same_next = refl;
        entries = λ k e. e;
        clients = λ k n. refl;
        sockid = λ io e. ground arith;
      }
  dtp_connect-Connects q os w sock ip port config w' (some io) h =
      let (client, c, x, y) = dtp_connect_inv q os w w' sock ip port config io h in
      rw x record {
        same_next = refl;
        entries = λ k e. ground (arith, get-insert sock k (some client.socket) w.api.sock_map);
        clients = λ k n.
            ground (arith, get-insert sock k client w.api.client_handles, int_beq_iff sock k);
        sockid = λ io' e. ground (arith, y);
      }

  -- The numbers and the clients are as before `listen_on` but for the server's number.
  bound-next :
      (w : World Conn) (sock : ℤ) (b : Run DtpServer) (r : ℤ × World Conn)
      → bound w sock b ≡ ok r
      → (r.1.api.next_fd ≡ w.api.next_fd) × ((k : ℤ) → has_client r.1.api k ≡ has_client w.api k)
  unfolding bound add_server
  bound-next w sock (ok server) r h =
      let now : r ≡ (pos 1, add_server w sock server) = ground arith in rw now (refl, λ k. refl)
  bound-next w sock err r h = let now : r ≡ (negsuc 0, w) = ground arith in rw now (refl, λ k. refl)
  bound-next w sock panicked r h = absurd (ground arith)

  dtp_bind-next :
      (os : Os Conn) (w : World Conn) (sock : ℤ) (ip : List ℕ) (port : ℤ) (r : ℤ × World Conn)
      → dtp_bind os w sock ip port ≡ ok r
      → (r.1.api.next_fd ≡ w.api.next_fd) × ((k : ℤ) → has_client r.1.api k ≡ has_client w.api k)
  unfolding dtp_bind
  dtp_bind-next os w sock ip port r h =
      let same : r ≡ (negsuc 0, w)
          → (r.1.api.next_fd ≡ w.api.next_fd)
            × ((k : ℤ) → has_client r.1.api k ≡ has_client w.api k) =
        λ e. rw e (refl, λ k. refl) in
      elim (Bool-cases (has_sock_entry w.api sock)) [
        | inr e ↦ same (ground arith)
        | inl e ↦ elim (Bool-cases (has_server w.api sock)) [
          | inl s ↦ same (ground arith)
          | inr s ↦ elim (Bool-cases (is_utf8 ip)) [
            | inl u ↦ bound-next w sock (bind os ip port sock w.next_ref) r (rw (e, s, u) at h)
            | inr u ↦ absurd (ground arith)
          ]
        ]
      ]

  dtp_listen-next :
      (w : World Conn) (sock : ℤ) (config : ℕ)
      → ((dtp_listen w sock config).0.api.next_fd ≡ w.api.next_fd)
        × ((k : ℤ) → has_client (dtp_listen w sock config).0.api k ≡ has_client w.api k)
  unfolding dtp_listen start_server
  dtp_listen-next w sock config = (ground arith, λ k. ground arith)

  pub listen_on-next :
      (os : Os Conn) (w w' : World Conn) (config : ℕ) (sock : ℤ) (conns : Option DtpServerConns)
      → listen_on os w config ≡ ok (w', (sock, conns))
      → w.api ≡ initial
      → (sock ≡ pos 0) × (w'.api.next_fd ≡ pos 1) × ((k : ℤ) → has_client w'.api k ≡ false)
  unfolding listen_on get
  listen_on-next os w w' config sock conns h e =
      let w₁ = (dtp_socket w).1 in
      let (r, b, f) = >>=-ok (dtp_bind os w₁ (dtp_socket w).0 localhost (pos 4433)) _ _ h in
      let (n, c) = dtp_bind-next os w₁ (dtp_socket w).0 localhost (pos 4433) r b in
      let (n', c') = dtp_listen-next r.1 (dtp_socket w).0 config in
      let now : w' ≡ (dtp_listen r.1 (dtp_socket w).0 config).0 = ground arith in
      let first : w.api.next_fd ≡ pos 0 = rw e refl in
      let at : sock ≡ (dtp_socket w).0 = ground arith in
      (
        at ∙ socket_number w ∙ first,
        rw now (n' ∙ n ∙ socket_after w 0 first (omega arith)),
        λ k. rw now (c' k ∙ c k ∙ socket_client w k ∙ rw e refl),
      )
