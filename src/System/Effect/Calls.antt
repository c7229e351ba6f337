-- ===== src/System/Effect/Calls.antt =====
-- What the socket functions of src/ffi.rs leave of a server: the ids of its connections and its status
-- map.
use nanwei_api_rust.Prelude.{
  ℕ, ◌+◌, ◌<◌, ◌≡◌, refl, sym, subst, List, Option, none, some, not, ◌||◌, arith, Bool-cases, inl,
  inr, nat_eq, nat_beq_iff, bytes_eq,
}
use nanwei_api_rust.Prelude.Int.{ℤ, pos, negsuc, int_eq}
use nanwei_api_rust.Prelude.Run.{
  Run, ok, err, panicked, Always, Always->>=, check, or_err, unwrap, expect,
}
use nanwei_api_rust.Prelude.Text.{is_utf8}
use nanwei_api_rust.Quiche.{Quiche, expect_success, IdLaws}
use nanwei_api_rust.Os.{Os}
use nanwei_api_rust.World.{DtpConnection}
use nanwei_api_rust.Api.{DtpClient, DtpServer, World, has_sock_entry, has_client, has_server}
use nanwei_api_rust.Client.{connect, bind_addr, send_first}
use nanwei_api_rust.Server.Create.{bind}
use nanwei_api_rust.Ffi.Sockets.{
  dtp_socket, dtp_socket_close, dtp_bind, bound, add_server, start_server, dtp_connect,
  client_started, start_client, dtp_listen,
}
use nanwei_api_rust.System.Sound.{Kept, Demoted, left}
use nanwei_api_rust.System.Effect.Transfers.{Kept-refl}

module _ {Conn : Type 0} (q : Quiche Conn) (ids : IdLaws q) where
  -- What a call leaves of the world of a server whose map stands at the given reference.
  pub record Leaves (shared : ℕ) (w w' : World Conn) : Type 0 where
    pub kept : Kept q w.conn w'.conn w.next_ref w'.next_ref
    pub status : Demoted (w.streams shared) (w'.streams shared)

  pub Leaves-refl : (shared : ℕ) (w : World Conn) → Leaves shared w w
  Leaves-refl shared w = record { kept = Kept-refl q ids w.conn w.next_ref; status = left }

  -- The same of a call that does not touch the map.
  pub record Idles (shared : ℕ) (w w' : World Conn) : Type 0 where
    pub kept : Kept q w.conn w'.conn w.next_ref w'.next_ref
    pub same : w'.streams shared ≡ w.streams shared

  Idles-refl : (shared : ℕ) (w : World Conn) → Idles shared w w
  Idles-refl shared w = record { kept = Kept-refl q ids w.conn w.next_ref; same = refl }

  pub Idles-Leaves : (shared : ℕ) (w w' : World Conn) → Idles shared w w' → Leaves shared w w'
  Idles-Leaves shared w w' i = record {
    kept = i.kept;
    status = subst (Demoted (w.streams shared)) (sym i.same) left;
  }

  same_streams :
      (shared : ℕ) (w w' : World Conn)
      → Kept q w.conn w'.conn w.next_ref w'.next_ref
      → w'.streams shared ≡ w.streams shared
      → Idles shared w w'
  same_streams shared w w' k e = record { kept = k; same = e }

  pub dtp_socket-Idles : (shared : ℕ) (w : World Conn) → Idles shared w (dtp_socket w).1
  unfolding dtp_socket
  dtp_socket-Idles shared w =
      same_streams shared w _ (record { ids = λ r h. refl; grows = ground arith }) refl

  pub dtp_socket_close-Idles :
      (shared : ℕ) (w : World Conn) (sock : ℤ) → Idles shared w (dtp_socket_close w sock).1
  unfolding dtp_socket_close
  dtp_socket_close-Idles shared w sock =
      same_streams shared w _ record { ids = λ r h. ground arith; grows = ground arith }
        (ground arith)

  pub dtp_listen-Idles :
      (shared : ℕ) (w : World Conn) (sock : ℤ) (config : ℕ)
      → Idles shared w (dtp_listen w sock config).0
  unfolding dtp_listen start_server
  dtp_listen-Idles shared w sock config =
      same_streams shared w _ record { ids = λ r h. ground arith; grows = ground arith }
        (ground arith)

  bind_shared :
      (os : Os Conn) (ip : List ℕ) (port sockid : ℤ) (r : ℕ)
      → Always (λ s. s.shared_streams ≡ r + 2) (bind os ip port sockid r)
  unfolding bind
  bind_shared os ip port sockid r = Always->>= _ (check os.poll_new) _ λ _ _.
      Always->>= _ (or_err (os.parse_addr ip port)) _ λ addr _.
        Always->>= _ (check (os.udp_bind addr)) _ λ _ _.
          Always->>= _ (check os.register) _ λ _ _. Always->>= _ (expect os.waker_new) _ λ _ _. refl

  bound-Idles :
      (shared : ℕ) (w : World Conn) (sock : ℤ) (b : Run DtpServer) (r : ℤ × World Conn)
      → shared < w.next_ref
      → Always (λ s. s.shared_streams ≡ w.next_ref + 2) b
      → bound w sock b ≡ ok r
      → Idles shared w r.1
  unfolding bound add_server
  bound-Idles shared w sock (ok server) r a e h =
      let now : r ≡ (pos 1, add_server w sock server) = ground arith in
      rw now (
        same_streams shared w (add_server w sock server)
          (record { ids = λ i g. refl; grows = omega arith })
          (ground (arith, nat_beq_iff server.shared_streams shared)))
  bound-Idles shared w sock err r a e h =
      let now : r ≡ (negsuc 0, w) = ground arith in rw now (Idles-refl shared w)
  bound-Idles shared w sock panicked r a e h = absurd (ground arith)

  pub dtp_bind-Idles :
      (os : Os Conn) (shared : ℕ) (w : World Conn) (sock : ℤ) (ip : List ℕ) (port : ℤ)
      (r : ℤ × World Conn)
      → shared < w.next_ref
      → dtp_bind os w sock ip port ≡ ok r
      → Idles shared w r.1
  unfolding dtp_bind
  dtp_bind-Idles os shared w sock ip port r a h = elim (Bool-cases (has_sock_entry w.api sock)) [
    | inr e ↦ let now : r ≡ (negsuc 0, w) = ground arith in rw now (Idles-refl shared w)
    | inl e ↦ elim (Bool-cases (has_server w.api sock)) [
      | inl s ↦ let now : r ≡ (negsuc 0, w) = ground arith in rw now (Idles-refl shared w)
      | inr s ↦ elim (Bool-cases (is_utf8 ip)) [
        | inl u ↦
            bound-Idles shared w sock (bind os ip port sock w.next_ref) r a
              (bind_shared os ip port sock w.next_ref) (rw (e, s, u) at h)
        | inr u ↦ absurd (ground arith)
      ]
    ]
  ]

  connect_conn :
      (os : Os Conn) (ip : List ℕ) (port sockid : ℤ) (r : ℕ)
      → Always (λ x. x.0.conn ≡ r) (unwrap (connect q os ip port sockid r))
  unfolding connect
  connect_conn os ip port sockid r = go (connect q os ip port sockid r) (
      Always->>= _ (expect os.poll_new) _ λ _ _.
        Always->>= _ (or_err (os.parse_addr ip port)) _ λ addr _.
          Always->>= _ (check (os.udp_bind (bind_addr addr))) _ λ _ _.
            Always->>= _ (expect os.register) _ λ _ _. Always->>= _ (expect os.waker_new) _ λ _ _.
              Always->>= _ (expect os.random_fill) _ λ _ _.
                Always->>= _ (or_err (os.quiche_connect addr)) _ λ c _.
                  Always->>= _ (expect (not os.logs_info || os.local_addr)) _ λ _ _.
                    Always->>= _ (expect_success (q.send c).0) _
                      λ _ _. Always->>= _ (send_first os.send_errors) _ λ _ _. refl)
    where
      go :
          (b : Run (DtpClient × Conn))
          → Always (λ x. x.0.conn ≡ r) b
          → Always (λ x. x.0.conn ≡ r) (unwrap b)
      go (ok x) e = e
      go err e = tt
      go panicked e = tt

  client_started-Idles :
      (shared : ℕ) (w : World Conn) (sock : ℤ) (b : Run (DtpClient × Conn))
      (r : World Conn × Option DtpConnection)
      → Always (λ x. x.0.conn ≡ w.next_ref) b
      → client_started w sock b ≡ ok r
      → Idles shared w r.0
  unfolding client_started start_client
  client_started-Idles shared w sock (ok (client, c)) r e h =
      let now : r.0 ≡ (start_client w sock client c).0 = ground arith in
      rw now (
        same_streams shared w (start_client w sock client c).0
          (record { ids = λ i g. ground (arith, nat_beq_iff client.conn i); grows = omega arith })
          refl)
  client_started-Idles shared w sock err r e h = absurd (ground arith)
  client_started-Idles shared w sock panicked r e h = absurd (ground arith)

  pub dtp_connect-Idles :
      (os : Os Conn) (shared : ℕ) (w : World Conn) (sock : ℤ) (ip : List ℕ) (port : ℤ)
      (config : Option ℕ) (r : World Conn × Option DtpConnection)
      → dtp_connect q os w sock ip port config ≡ ok r
      → Idles shared w r.0
  unfolding dtp_connect
  dtp_connect-Idles os shared w sock ip port none r h =
      let now : r.0 ≡ w = ground arith in rw now (Idles-refl shared w)
  dtp_connect-Idles os shared w sock ip port (some config) r h =
      elim (Bool-cases (has_sock_entry w.api sock)) [
        | inr e ↦ let now : r.0 ≡ w = ground arith in rw now (Idles-refl shared w)
        | inl e ↦ elim (Bool-cases (has_client w.api sock)) [
          | inl s ↦ let now : r.0 ≡ w = ground arith in rw now (Idles-refl shared w)
          | inr s ↦ elim (Bool-cases (is_utf8 ip)) [
            | inl u ↦
                client_started-Idles shared w sock (unwrap (connect q os ip port sock w.next_ref)) r
                  (connect_conn os ip port sock w.next_ref) (rw (e, s, u) at h)
            | inr u ↦ absurd (ground arith)
          ]
        ]
      ]
