-- ===== src/Outgoing.antt =====
-- Datagrams, and the loop that sends what a connection has to send, of `server_loop` in src/server.rs
-- and of `client_loop` in src/client.rs. Logging is left out.
pub mod Enough
use nanwei_api_rust.Prelude.{
  ℕ, suc, zero, Bool, true, false, List, [], ◌∷◌, Option, none, some, if◌then◌else◌,
}
use nanwei_api_rust.Prelude.Run.{Run, ok, panicked}
use nanwei_api_rust.Quiche.{Quiche, SocketAddr, success, failure, is_done}
use nanwei_api_rust.Os.{IoErrorKind, would_block, other}

abbrev pub Datagram : Type 0
Datagram = List ℕ × SocketAddr

-- What `recv_from` gives.
pub data Arrival : Type 0 where
  arrived : Datagram → Arrival
  failed : IoErrorKind → Arrival

abbrev pub fail_reason : List ℕ
fail_reason = 102 ∷ 97 ∷ 105 ∷ 108 ∷ []

-- What `send_to` answers may depend on all that was sent before, newest first.
module _ {Conn : Type 0} (q : Quiche Conn)
    (send_to : List Datagram → Datagram → Option IoErrorKind) where
  -- The packets of one connection, for at most so many of them; `none` when there would be more. A
  -- packet that the socket cannot take is dropped.
  unfoldable pub flush_conn : ℕ → Conn → List Datagram → Option (Run (Conn × List Datagram))
  flush_conn zero c outbox = none
  flush_conn (suc n) c outbox = elim (q.send c).0 [
    | success d ↦ elim (send_to outbox d) [
      | none ↦ flush_conn n (q.send c).1 (d ∷ outbox)
      | some would_block ↦ some (ok ((q.send c).1, outbox))
      | some other ↦ some panicked
    ]
    | failure e ↦
        if is_done e
        then some (ok ((q.send c).1, outbox))
        else some (ok ((q.close (q.send c).1 false 1 fail_reason).1, outbox))
  ]
