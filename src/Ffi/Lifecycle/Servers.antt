-- ===== src/Ffi/Lifecycle/Servers.antt =====
-- New sockets, and the life of a server's socket.
use nanwei_api_rust.Prelude.{
  ℕ, ◌≡◌, refl, ap, true, false, ◌||◌, ◌&&◌, List, none, some, is_some, arith, Bool-cases, inl, inr,
  if◌then◌else◌, ◌==◌, ◌↔◌, ◌⊎◌,
}
use nanwei_api_rust.Prelude.Int.{ℤ, pos, negsuc, int_eq}
use nanwei_api_rust.Prelude.Map.{get, get-insert, get-remove, get-insert_self, get-remove_self}
use nanwei_api_rust.Prelude.Run.{Run, ok, err, panicked}
use nanwei_api_rust.Prelude.Text.{is_utf8}
use nanwei_api_rust.Os.{Os}
use nanwei_api_rust.Api.{DtpServer, World, create_udp_fd, has_sock_entry, has_client, has_server}
use nanwei_api_rust.Api.Invariant.{Inv, IsIssued}
use nanwei_api_rust.Server.Create.{bind, set_config, get_run_args, ServerArgs}
use nanwei_api_rust.Ffi.Sockets.{
  dtp_socket, dtp_socket_close, add_server, bound, dtp_bind, start_server, dtp_listen,
  DtpServerConns,
}

not-IsIssued_self : (n : ℤ) → ¬ IsIssued n n
not-IsIssued_self (pos n) h = omega arith
not-IsIssued_self (negsuc n) h = h

module _ {Conn : Type 0} where
  fresh : (w : World Conn) → Inv w.api → has_sock_entry w.api w.api.next_fd ≡ false
  fresh w i = elim (Bool-cases (has_sock_entry w.api w.api.next_fd)) [
    | inl e ↦ absurd (not-IsIssued_self w.api.next_fd (i.issued w.api.next_fd e))
    | inr e ↦ e
  ]

  -- `dtp_socket` gives a number that had no entry. It now has one, it is neither a client's nor a
  -- server's, and every other number is as before.
  pub dtp_socket_fresh :
      (w : World Conn)
      → Inv w.api
      → let (fd, w') = dtp_socket w in
        (has_sock_entry w.api fd ≡ false)
        × ((k : ℤ) → has_sock_entry w'.api k ≡ (fd == k) || has_sock_entry w.api k)
        × (has_client w'.api fd ≡ false)
        × (has_server w'.api fd ≡ false)
        × ((k : ℤ) → has_client w'.api k ≡ has_client w.api k)
        × ((k : ℤ) → has_server w'.api k ≡ has_server w.api k)
  unfolding dtp_socket create_udp_fd
  dtp_socket_fresh w i =
      let fd = w.api.next_fd in
      let f = fresh w i in
      (
        f,
        λ k. ground (arith, get-insert fd k none w.api.sock_map),
        ground (arith, f, i.clients fd),
        ground (arith, f, i.servers fd),
        λ k. refl,
        λ k. refl,
      )

  -- `dtp_socket_close` returns 0 exactly for a number that has an entry and is neither a client's nor
  -- a server's; that number loses its entry, and nothing else changes. In every other case the result
  -- is -1 and nothing changes at all.
  pub dtp_socket_close_lem :
      (w : World Conn) (sock : ℤ)
      → let (ret, w') = dtp_socket_close w sock in
        ((ret ≡ pos 0) ↔ (
          (has_sock_entry w.api sock ≡ true)
          × (has_client w.api sock ≡ false)
          × (has_server w.api sock ≡ false)))
        × ((ret ≡ pos 0) ⊎ ((ret ≡ negsuc 0) × (w' ≡ w)))
        × ((k : ℤ)
            → get k w'.api.sock_map
              ≡ (if (ret == pos 0) && (sock == k) then none else get k w.api.sock_map))
        × ((k : ℤ) → has_client w'.api k ≡ has_client w.api k)
        × ((k : ℤ) → has_server w'.api k ≡ has_server w.api k)
  unfolding dtp_socket_close
  dtp_socket_close_lem w sock = (
    (λ h. ground arith, λ h. ground arith),
    ground arith,
    λ k. ground (arith, get-remove sock k w.api.sock_map),
    λ k. ground arith,
    λ k. ground arith,
  )

  bound_inv :
      (w w' : World Conn) (sock : ℤ) (r : Run DtpServer)
      → bound w sock r ≡ ok (pos 1, w')
      → (server : DtpServer) × (w' ≡ add_server w sock server)
  unfolding bound
  bound_inv w w' sock (ok server) h = (server, ground arith)
  bound_inv w w' sock err h = absurd (ground arith)
  bound_inv w w' sock panicked h = absurd (ground arith)

  dtp_bind_inv :
      (os : Os Conn) (w w' : World Conn) (sock : ℤ) (ip : List ℕ) (port : ℤ)
      → dtp_bind os w sock ip port ≡ ok (pos 1, w')
      → (server : DtpServer) × (w' ≡ add_server w sock server)
        × (has_sock_entry w.api sock ≡ true)
        × (has_server w.api sock ≡ false)
  unfolding dtp_bind
  dtp_bind_inv os w w' sock ip port h = elim (Bool-cases (has_sock_entry w.api sock)) [
    | inr e ↦ absurd (ground arith)
    | inl e ↦ elim (Bool-cases (has_server w.api sock)) [
      | inl s ↦ absurd (ground arith)
      | inr s ↦ elim (Bool-cases (is_utf8 ip)) [
        | inl u ↦
            let (server, x) =
              bound_inv w w' sock (bind os ip port sock w.next_ref) (rw (e, s, u) at h) in
            (server, x, e, s)
        | inr u ↦ absurd (ground arith)
      ]
    ]
  ]

  pub listen_lem :
      (w : World Conn) (sock : ℤ) (config : ℕ) (s : DtpServer)
      → has_sock_entry w.api sock ≡ true
      → get sock w.api.server_map ≡ some s
      → dtp_listen w sock config ≡ (
        (start_server w sock (set_config s config).0).0,
        some (start_server w sock (set_config s config).0).1,
      )
  unfolding dtp_listen
  listen_lem w sock config s e g = rw (e, g)

  running_refuses :
      (os : Os Conn) (w : World Conn) (sock : ℤ) (ip : List ℕ) (port : ℤ) (config : ℕ)
      (s : DtpServer)
      → has_sock_entry w.api sock ≡ true
      → get sock w.api.server_map ≡ none
      → get sock w.api.server_handles ≡ some s
      → (dtp_listen w sock config ≡ (w, none))
        × (dtp_bind os w sock ip port ≡ ok (negsuc 0, w))
        × (dtp_socket_close w sock ≡ (negsuc 0, w))
  unfolding dtp_listen dtp_bind dtp_socket_close
  running_refuses os w sock ip port config s e g h = (rw (e, g, h), rw (e, g, h), ground arith)

  -- A socket that `dtp_bind` has bound can be listened on once: `dtp_listen` gives a handle that names
  -- the socket and shares the state of the server, and the server's thread has the configuration that
  -- it was given. After that the socket stays the server's: it cannot be listened on, bound or closed.
  pub bind_then_listen :
      (os os' : Os Conn) (w w' : World Conn) (sock : ℤ) (ip ip' : List ℕ) (port port' : ℤ)
      (config config' : ℕ)
      → dtp_bind os w sock ip port ≡ ok (pos 1, w')
      → (server : DtpServer) × (conns : DtpServerConns) × (args : ServerArgs) × let (
        w'', listened,
      ) =
            dtp_listen w' sock config in
          (listened ≡ some conns)
          × (conns.sockid ≡ sock)
          × (get sock w''.api.server_handles ≡ some server)
          × (get_run_args server ≡ ok args)
          × (args.config ≡ config)
          × (args.shared_streams ≡ conns.streams)
          × (dtp_listen w'' sock config' ≡ (w'', none))
          × (dtp_bind os' w'' sock ip' port' ≡ ok (negsuc 0, w''))
          × (dtp_socket_close w'' sock ≡ (negsuc 0, w''))
  unfolding add_server start_server set_config get_run_args
  bind_then_listen os os' w w' sock ip ip' port port' config config' h =
      let (s, x, e, n) = dtp_bind_inv os w w' sock ip port h in
      let w₁ = add_server w sock s in
      let s' = (set_config s config).0 in
      let w₂ = (start_server w₁ sock s').0 in
      let entry : has_sock_entry w₁.api sock ≡ true =
        ap is_some (get-insert_self sock (some s.socket) w.api.sock_map) in
      let l = listen_lem w₁ sock config s entry (get-insert_self sock s w.api.server_map) in
      let (r₁, r₂, r₃) =
        running_refuses os' w₂ sock ip' port' config' s' entry
          (get-remove_self sock w₁.api.server_map)
          (get-insert_self sock s' w₁.api.server_handles) in
      (
        s',
        (start_server w₁ sock s').1,
        record { socket = s.socket; config = config; shared_streams = s.shared_streams },
        rw x (
            rw l (
              refl,
              refl,
              get-insert_self sock s' w₁.api.server_handles,
              refl,
              refl,
              refl,
              r₁,
              r₂,
              r₃,
            )),
      )
