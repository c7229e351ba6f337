-- ===== src/Ffi/Sockets/Keeps.antt =====
-- The invariant of the tables through the calls on a socket.
use nanwei_api_rust.Prelude.{
  ℕ, ◌≡◌, ◌≢◌, true, false, Option, none, some, arith, Bool-cases, Option-cases, inl, inr, List,
}
use nanwei_api_rust.Prelude.Int.{ℤ, pos, int_eq, int_beq_iff}
use nanwei_api_rust.Prelude.Map.{get, remove, get-insert, get-remove}
use nanwei_api_rust.Prelude.Run.{Run, ok, err, panicked, unwrap}
use nanwei_api_rust.Prelude.Text.{is_utf8}
use nanwei_api_rust.Quiche.{Quiche}
use nanwei_api_rust.Os.{Os}
use nanwei_api_rust.World.{DtpConnection}
use nanwei_api_rust.Api.{
  DtpClient, DtpServer, DtpApi, World, has_server, has_client, has_sock_entry,
}
use nanwei_api_rust.Api.Invariant.{Inv, create_udp_fd-Inv}
use nanwei_api_rust.Client.{connect}
use nanwei_api_rust.Server.Create.{bind, set_config}
use nanwei_api_rust.Ffi.Sockets.{
  dtp_socket, dtp_socket_close, add_server, bound, dtp_bind, start_server, dtp_listen, start_client,
  client_started, dtp_connect,
}

forget-Inv :
    (a : DtpApi) (sock : ℤ)
    → has_client a sock ≡ false
    → has_server a sock ≡ false
    → Inv a
    → Inv (record a { sock_map = remove sock a.sock_map })
forget-Inv a sock c s i = record {
  counting = i.counting;
  issued = λ k e. ground (arith, get-remove sock k a.sock_map, i.issued k);
  clients = λ k e. ground (arith, get-remove sock k a.sock_map, int_beq_iff sock k, i.clients k);
  servers = λ k e. ground (arith, get-remove sock k a.sock_map, int_beq_iff sock k, i.servers k);
  one_server = i.one_server;
  configured = i.configured;
  shared = i.shared;
  wakers = i.wakers;
}

module _ {Conn : Type 0} where
  pub dtp_socket-Inv :
      (w : World Conn) → w.api.next_fd ≢ pos 2147483647 → Inv w.api → Inv (dtp_socket w).1.api
  unfolding dtp_socket
  dtp_socket-Inv w h i = create_udp_fd-Inv w.api h i

  pub dtp_socket_close-Inv :
      (w : World Conn) (sock : ℤ) → Inv w.api → Inv (dtp_socket_close w sock).1.api
  unfolding dtp_socket_close
  dtp_socket_close-Inv w sock i = elim (Bool-cases (has_sock_entry w.api sock)) [
    | inr e ↦ rw e i
    | inl e ↦ elim (Bool-cases (has_client w.api sock)) [
      | inl c ↦ rw (e, c) i
      | inr c ↦ elim (Bool-cases (has_server w.api sock)) [
        | inl s ↦ rw (e, c, s) i
        | inr s ↦ rw (e, c, s) (forget-Inv w.api sock c s i)
      ]
    ]
  ]

  add_server-Inv :
      (w : World Conn) (sock : ℤ) (server : DtpServer)
      → has_sock_entry w.api sock ≡ true
      → has_server w.api sock ≡ false
      → Inv w.api
      → Inv (add_server w sock server).api
  unfolding add_server
  add_server-Inv w sock server e s i =
      let socks = λ (k : ℤ). get-insert sock k (some server.socket) w.api.sock_map in
      let servers = λ (k : ℤ). get-insert sock k server w.api.server_map in
      record {
        counting = i.counting;
        issued = λ k h. ground (arith, socks k, int_beq_iff sock k, i.issued k);
        clients = λ k h. ground (arith, socks k, int_beq_iff sock k, i.clients k);
        servers = λ k h. ground (arith, socks k, servers k, int_beq_iff sock k, i.servers k);
        one_server = λ k h. ground (arith, servers k, int_beq_iff sock k, i.one_server k);
        configured = i.configured;
        shared = i.shared;
        wakers = i.wakers;
      }

  bound-Inv :
      (w w' : World Conn) (sock ret : ℤ) (r : Run DtpServer)
      → has_sock_entry w.api sock ≡ true
      → has_server w.api sock ≡ false
      → Inv w.api
      → bound w sock r ≡ ok (ret, w')
      → Inv w'.api
  unfolding bound
  bound-Inv w w' sock ret (ok server) e s i h = ground (arith, add_server-Inv w sock server e s i)
  bound-Inv w w' sock ret err e s i h = ground (arith, i)
  bound-Inv w w' sock ret panicked e s i h = cc

  pub dtp_bind-Inv :
      (os : Os Conn) (w w' : World Conn) (sock : ℤ) (ip : List ℕ) (port ret : ℤ)
      → Inv w.api
      → dtp_bind os w sock ip port ≡ ok (ret, w')
      → Inv w'.api
  unfolding dtp_bind
  dtp_bind-Inv os w w' sock ip port ret i h = elim (Bool-cases (has_sock_entry w.api sock)) [
    | inr e ↦ ground (arith, i)
    | inl e ↦ elim (Bool-cases (has_server w.api sock)) [
      | inl s ↦ ground (arith, i)
      | inr s ↦ elim (Bool-cases (is_utf8 ip)) [
        | inl u ↦
            bound-Inv w w' sock ret (bind os ip port sock w.next_ref) e s i (rw (e, s, u) at h)
        | inr u ↦ ground arith
      ]
    ]
  ]

  start_server-Inv :
      (w : World Conn) (sock : ℤ) (server : DtpServer) (config : ℕ)
      → get sock w.api.server_map ≡ some server
      → Inv w.api
      → Inv (start_server w sock (set_config server config).0).0.api
  unfolding start_server set_config
  start_server-Inv w sock server config e i =
      let s : DtpServer = (set_config server config).0 in
      let bound = λ (k : ℤ). get-remove sock k w.api.server_map in
      let running = λ (k : ℤ). get-insert sock k s w.api.server_handles in
      record {
        counting = i.counting;
        issued = i.issued;
        clients = i.clients;
        servers = λ k h. ground (arith, bound k, running k, int_beq_iff sock k, i.servers k);
        one_server = λ k h. ground (arith, bound k, running k, int_beq_iff sock k, i.one_server k);
        configured = λ k x h. ground (arith, running k, i.configured k x);
        shared = λ k. ground (
          arith,
          running k,
          get-insert sock k s.shared_streams w.api.server_shared_map,
          i.shared k,
        );
        wakers = λ k.
            ground (arith, running k, get-insert sock k s.waker w.api.server_waker_map, i.wakers k);
      }

  pub dtp_listen-Inv :
      (w : World Conn) (sock : ℤ) (config : ℕ) → Inv w.api → Inv (dtp_listen w sock config).0.api
  unfolding dtp_listen
  dtp_listen-Inv w sock config i = elim (Bool-cases (has_sock_entry w.api sock)) [
    | inr e ↦ rw e i
    | inl e ↦ elim (Bool-cases (has_server w.api sock)) [
      | inr s ↦ rw (e, s) i
      | inl s ↦ elim (Option-cases (get sock w.api.server_map)) [
        | inl n ↦ rw (e, s) (rw n i)
        | inr (server, n) ↦ rw (e, s) (rw n (start_server-Inv w sock server config n i))
      ]
    ]
  ]

  start_client-Inv :
      (w : World Conn) (sock : ℤ) (client : DtpClient) (c : Conn)
      → has_sock_entry w.api sock ≡ true
      → Inv w.api
      → Inv (start_client w sock client c).0.api
  unfolding start_client
  start_client-Inv w sock client c e i =
      let socks = λ (k : ℤ). get-insert sock k (some client.socket) w.api.sock_map in
      let handles = λ (k : ℤ). get-insert sock k client w.api.client_handles in
      record {
        counting = i.counting;
        issued = λ k h. ground (arith, socks k, int_beq_iff sock k, i.issued k);
        clients = λ k h. ground (arith, socks k, handles k, int_beq_iff sock k, i.clients k);
        servers = λ k h. ground (arith, socks k, int_beq_iff sock k, i.servers k);
        one_server = i.one_server;
        configured = i.configured;
        shared = i.shared;
        wakers = i.wakers;
      }

  client_started-Inv :
      (w w' : World Conn) (sock : ℤ) (r : Run (DtpClient × Conn)) (io : Option DtpConnection)
      → has_sock_entry w.api sock ≡ true
      → Inv w.api
      → client_started w sock r ≡ ok (w', io)
      → Inv w'.api
  unfolding client_started
  client_started-Inv w w' sock (ok (client, c)) io e i h =
      ground (arith, start_client-Inv w sock client c e i)
  client_started-Inv w w' sock err io e i h = cc
  client_started-Inv w w' sock panicked io e i h = cc

  pub dtp_connect-Inv :
      (q : Quiche Conn) (os : Os Conn) (w w' : World Conn) (sock : ℤ) (ip : List ℕ) (port : ℤ)
      (config : Option ℕ) (io : Option DtpConnection)
      → Inv w.api
      → dtp_connect q os w sock ip port config ≡ ok (w', io)
      → Inv w'.api
  unfolding dtp_connect
  dtp_connect-Inv q os w w' sock ip port none io i h = ground (arith, i)
  dtp_connect-Inv q os w w' sock ip port (some config) io i h =
      elim (Bool-cases (has_sock_entry w.api sock)) [
        | inr e ↦ ground (arith, i)
        | inl e ↦ elim (Bool-cases (has_client w.api sock)) [
          | inl s ↦ ground (arith, i)
          | inr s ↦ elim (Bool-cases (is_utf8 ip)) [
            | inl u ↦
                client_started-Inv w w' sock (unwrap (connect q os ip port sock w.next_ref)) io e i
                  (rw (e, s, u) at h)
            | inr u ↦ ground arith
          ]
        ]
      ]
