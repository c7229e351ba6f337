-- ===== src/Ffi/Close/Branches.antt =====
-- What `dtp_close` does on each side of a connection.
use nanwei_api_rust.Prelude.{
  ℕ, ◌≡◌, refl, Bool, true, false, List, [], ◌∷◌, Option, none, some, arith, Bool-cases,
  Option-cases, inl, inr, if◌then◌else◌, ◌==◌, nat_eq, nat_beq_self, bytes_eq, bytes_beq_iff,
}
use nanwei_api_rust.Prelude.Int.{ℤ, pos, negsuc, int_eq}
use nanwei_api_rust.Prelude.Map.{get, remove, get-insert, get-remove}
use nanwei_api_rust.Prelude.Run.{ok, panicked}
use nanwei_api_rust.Quiche.{Quiche}
use nanwei_api_rust.World.{ClientStatus, close, SharedStreams, DtpConnection, update}
use nanwei_api_rust.Api.{DtpClient, DtpApi, World}
use nanwei_api_rust.Api.Invariant.{Inv}
use nanwei_api_rust.Ffi.Sockets.{DtpServerConns}
use nanwei_api_rust.Ffi.Accept.{handle_of, returned, accept_pass, accept_loop, dtp_accept}
use nanwei_api_rust.Ffi.Close.{
  Closed, mark_close, close_established, close_client, close_server, dtp_close,
}

-- After `dtp_close` an entry of the status map is as before but for the status of the connection.
abbrev pub closed_entry : Bool → Option (ℕ × ClientStatus) → Option (ℕ × ClientStatus)
closed_entry true (some entry) = some (entry.0, close)
closed_entry _ entry = entry

pub get-mark_close :
    (id k : List ℕ) (m : SharedStreams) → get k (mark_close id m) ≡ closed_entry (id == k) (get k m)
unfolding mark_close
get-mark_close id k m = elim (Option-cases (get id m)) [
  | inl e ↦ ground (arith, bytes_beq_iff id k)
  | inr (entry, e) ↦ ground (arith, bytes_beq_iff id k, get-insert id k (entry.0, close) m)
]

drop_handle-Inv :
    (a : DtpApi) (sock : ℤ)
    → Inv a
    → Inv (record a { client_handles = remove sock a.client_handles })
drop_handle-Inv a sock i = record {
  counting = i.counting;
  issued = i.issued;
  clients = λ k h. ground (arith, get-remove sock k a.client_handles, i.clients k);
  servers = i.servers;
  one_server = i.one_server;
  configured = i.configured;
  shared = i.shared;
  wakers = i.wakers;
}

module _ {Conn : Type 0} (q : Quiche Conn) (wake : ℕ → Bool) (join : DtpClient → Conn → Option Conn)
    (debug : Bool) where
  close_established-Inv :
      (w : World Conn) (io : DtpConnection) (r : Closed Conn)
      → Inv w.api
      → close_established q wake join debug w io ≡ ok r
      → Inv r.world.api
  unfolding close_established
  close_established-Inv w io r i h = elim (Option-cases io.sockid) [
    | inl n ↦ ground arith
    | inr (sock, n) ↦ ground (arith, drop_handle-Inv w.api sock i)
  ]

  pub dtp_close-Inv :
      (w : World Conn) (io : Option DtpConnection) (r : Closed Conn)
      → Inv w.api
      → dtp_close q wake join debug w io ≡ ok r
      → Inv r.world.api
  unfolding dtp_close close_client close_server
  dtp_close-Inv w none r i h = ground (arith, i)
  dtp_close-Inv w (some io) r i h = elim (Bool-cases io.is_server_side) [
    | inl s ↦ ground (arith, i)
    | inr s ↦ elim (Bool-cases (q.is_closed (w.conn io.conn))) [
      | inl c ↦ ground (arith, i)
      | inr c ↦ elim (Bool-cases (q.is_established (w.conn io.conn))) [
        | inl e ↦ close_established-Inv w io r i (ground arith)
        | inr e ↦ ground (arith, i)
      ]
    ]
  ]

  -- Closing the server's side of a connection that the peer has finished: `dtp_close` returns 1, frees
  -- the handle and marks the connection as one that the server may forget. Every other entry of the
  -- status map stays as it is, and so do the tables and the connections.
  pub dtp_close_accepted :
      (w : World Conn) (conns : DtpServerConns) (id : List ℕ) (c : ℕ)
      → q.is_closed (w.conn c) ≡ true
      → (w' : World Conn) × (dtp_close q wake join debug w (some (handle_of conns (id, c)))
          ≡ ok (record { ret = pos 1; freed = true; woken = none; world = w' }))
        × ((k : List ℕ)
            → get k (w'.streams conns.streams)
              ≡ closed_entry (id == k) (get k (w.streams conns.streams)))
        × (w'.api ≡ w.api)
        × (w'.conn ≡ w.conn)
  unfolding dtp_close close_server handle_of
  dtp_close_accepted w conns id c cl = (
    record w { streams = update w.streams conns.streams (mark_close id (w.streams conns.streams)) },
    ground arith,
    λ k. rw (nat_beq_self conns.streams) (get-mark_close id k (w.streams conns.streams)),
    refl,
    refl,
  )

  -- A handle that `dtp_accept` has returned, while the connection is open: `dtp_close` returns -1 and
  -- changes nothing, unless debug messages are logged: then the call panics, since its message asks the
  -- handle for the number of a socket.
  pub dtp_accept-dtp_close :
      (w : World Conn) (conns : DtpServerConns) (is_block : Bool) (seen : List SharedStreams)
      (io : DtpConnection) (m : Option SharedStreams)
      → dtp_accept (some conns) is_block seen ≡ returned (some io) m
      → q.is_closed (w.conn io.conn) ≡ false
      → dtp_close q wake join debug w (some io) ≡ (
          if debug
          then panicked
          else ok (record { ret = negsuc 0; freed = false; woken = none; world = w }))
  unfolding dtp_accept accept_loop dtp_close close_server handle_of
  dtp_accept-dtp_close w conns is_block [] io m h cl = absurd (ground arith)
  dtp_accept-dtp_close w conns is_block (m₀ ∷ seen) io m h cl =
      elim (Option-cases (accept_pass m₀).0) [
        | inl e ↦ elim (Bool-cases is_block) [
          | inl b ↦ dtp_accept-dtp_close w conns is_block seen io m (ground arith) cl
          | inr b ↦ absurd (ground arith)
        ]
        | inr (found, e) ↦ let now : io ≡ handle_of conns found = ground arith in ground arith
      ]
