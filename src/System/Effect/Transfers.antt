-- ===== src/System/Effect/Transfers.antt =====
-- What the transfer functions of src/ffi.rs and the thread of a client in src/client.rs leave of the
-- connections in use: their ids.
use nanwei_api_rust.Prelude.{
  ℕ, ◌≡◌, refl, ◌∙◌, Bool, false, List, [], ◌∷◌, Option, none, some, arith, Bool-cases, inl, inr,
  nat_eq, bytes_eq, if◌then◌else◌,
}
use nanwei_api_rust.Prelude.Int.{ℤ, int_eq, as_u64}
use nanwei_api_rust.Prelude.Run.{Run, ok, err, panicked}
use nanwei_api_rust.Quiche.{Quiche, IdLaws, success, failure, is_done, Result}
use nanwei_api_rust.Os.{IoErrorKind, would_block, other}
use nanwei_api_rust.Outgoing.{Datagram, Arrival, arrived, failed, flush_conn}
use nanwei_api_rust.Outgoing.Enough.{flush_conn_id}
use nanwei_api_rust.World.{DtpConnection, update}
use nanwei_api_rust.Client.Loop.{
  Event, poll_failed, timed_out, packets, Progress, ended, waiting, client_read, client_write,
  client_round,
}
use nanwei_api_rust.Ffi.Transfer.{Sent, dtp_send, send_on, dtp_recv, recv_on, recv_loop, is_ready}
use nanwei_api_rust.Server.Packet.Tracked.{update_id}
use nanwei_api_rust.System.{after_round}
use nanwei_api_rust.System.Sound.{Kept}

module _ {Conn : Type 0} (q : Quiche Conn) (ids : IdLaws q) where
  pub Kept-refl : (conn : ℕ → Conn) (n : ℕ) → Kept q conn conn n n
  Kept-refl conn n = record { ids = λ r h. refl; grows = ground arith }

  pub Kept-update :
      (conn : ℕ → Conn) (n r : ℕ) (c : Conn)
      → q.source_id c ≡ q.source_id (conn r)
      → Kept q conn (update conn r c) n n
  Kept-update conn n r c e = record {
    ids = λ i h. update_id q ids conn r i c e;
    grows = ground arith;
  }

  recv_loop_id :
      (l : List ℕ) (buflen : ℕ) (id : ℤ) (fin : Bool) (c : Conn)
      → q.source_id (recv_loop q l buflen id fin c).state ≡ q.source_id c
  unfolding recv_loop
  recv_loop_id [] buflen id fin c = refl
  recv_loop_id (s ∷ l) buflen id fin c =
      go (q.stream_recv c s buflen).0 refl
        (recv_loop_id l buflen id fin (q.stream_recv c s buflen).1)
    where
      go :
          (r : Result (List ℕ × Bool))
          → (q.stream_recv c s buflen).0 ≡ r
          → q.source_id (recv_loop q l buflen id fin (q.stream_recv c s buflen).1).state
            ≡ q.source_id (q.stream_recv c s buflen).1
          → q.source_id (recv_loop q (s ∷ l) buflen id fin c).state ≡ q.source_id c
      go (success v) e ih = rw (recv_loop, e) (ids.stream_recv_id c s buflen)
      go (failure f) e ih = elim (Bool-cases (is_done f)) [
        | inl d ↦ rw (recv_loop, e, d) (ih ∙ ids.stream_recv_id c s buflen)
        | inr d ↦ rw (recv_loop, e, d) (ids.stream_recv_id c s buflen)
      ]

  recv_on-Kept :
      (conn : ℕ → Conn) (n : ℕ) (io : DtpConnection) (buflen id : ℤ) (fin : Bool)
      → Kept q conn (recv_on q conn io buflen id fin).state n n
  unfolding recv_on
  recv_on-Kept conn n io buflen id fin = elim (Bool-cases (q.is_closed (conn io.conn))) [
    | inl a ↦ rw a (Kept-refl conn n)
    | inr a ↦ elim (Bool-cases (is_ready q (conn io.conn))) [
      | inr b ↦ rw (a, b) (Kept-refl conn n)
      | inl b ↦ rw (a, b) (Kept-update conn n io.conn _ (recv_loop_id _ _ id fin _))
    ]
  ]

  pub dtp_recv-Kept :
      (conn : ℕ → Conn) (n : ℕ) (io : Option DtpConnection) (buflen : ℤ) (id : Option ℤ)
      (fin : Option Bool)
      → Kept q conn (dtp_recv q conn io buflen id fin).state n n
  unfolding dtp_recv
  dtp_recv-Kept conn n none buflen id fin = Kept-refl conn n
  dtp_recv-Kept conn n (some io) buflen none fin = Kept-refl conn n
  dtp_recv-Kept conn n (some io) buflen (some id) none = Kept-refl conn n
  dtp_recv-Kept conn n (some io) buflen (some id) (some fin) = recv_on-Kept conn n io buflen id fin

  pub dtp_send-Kept :
      (wake : ℕ → Bool) (conn : ℕ → Conn) (n : ℕ) (io : Option DtpConnection) (buf : List ℕ)
      (fin : Bool) (id : ℤ) (r : Sent (ℕ → Conn))
      → dtp_send q wake conn io buf fin id ≡ ok r
      → Kept q conn r.state n n
  unfolding dtp_send send_on
  dtp_send-Kept wake conn n none buf fin id r h =
      let e : r.state ≡ conn = ground arith in rw e (Kept-refl conn n)
  dtp_send-Kept wake conn n (some io) buf fin id r h =
      elim (Bool-cases (q.is_closed (conn io.conn))) [
        | inl a ↦ let e : r.state ≡ conn = ground arith in rw e (Kept-refl conn n)
        | inr a ↦ elim (Bool-cases (is_ready q (conn io.conn))) [
          | inr b ↦ let e : r.state ≡ conn = ground arith in rw e (Kept-refl conn n)
          | inl b ↦ elim (Bool-cases (wake io.waker)) [
            | inr w ↦ absurd (ground arith)
            | inl w ↦
                let e : r.state
                    ≡ update conn io.conn (q.stream_send (conn io.conn) (as_u64 id) buf fin).1 =
                  ground arith in
                rw e (Kept-update conn n io.conn _ (ids.stream_send_id (conn io.conn) _ buf fin))
          ]
        ]
      ]

  client_read_id :
      (send_to : List Datagram → Datagram → Option IoErrorKind) (l : List Arrival) (c c' : Conn)
      → client_read q send_to c l ≡ ok c'
      → q.source_id c' ≡ q.source_id c
  unfolding client_read
  client_read_id send_to [] c c' h = ground arith
  client_read_id send_to (failed would_block ∷ l) c c' h = ground arith
  client_read_id send_to (failed other ∷ l) c c' h = absurd (ground arith)
  client_read_id send_to (arrived (packet, from) ∷ l) c c' h =
      client_read_id send_to l (q.recv c packet from).1 c' h ∙ ids.recv_id c packet from

  client_write_id :
      (send_to : List Datagram → Datagram → Option IoErrorKind) (n : ℕ) (c : Conn)
      (outbox : List Datagram) (p : Progress Conn)
      → client_write q send_to n c outbox ≡ some (ok p)
      → q.source_id (after_round p) ≡ q.source_id c
  unfolding client_write
  client_write_id send_to n c outbox p h = elim (Bool-cases (q.is_closed c)) [
    | inl a ↦ let e : p ≡ ended c outbox = ground arith in rw e refl
    | inr a ↦ go (flush_conn q send_to n c outbox) refl a
  ]
    where
      end :
          (d : Conn) (out : List Datagram)
          → p ≡ (if q.is_closed d then ended d out else waiting d out)
          → q.source_id (after_round p) ≡ q.source_id d
      end d out e = elim (Bool-cases (q.is_closed d)) [
        | inl b ↦ rw (e, b) refl
        | inr b ↦ rw (e, b) refl
      ]

      go :
          (o : Option (Run (Conn × List Datagram)))
          → flush_conn q send_to n c outbox ≡ o
          → q.is_closed c ≡ false
          → q.source_id (after_round p) ≡ q.source_id c
      go none e a = absurd (let h' = rw (client_write, a, e) at h in ground arith)
      go (some err) e a = absurd (let h' = rw (client_write, a, e) at h in ground arith)
      go (some panicked) e a = absurd (let h' = rw (client_write, a, e) at h in ground arith)
      go (some (ok (d, out))) e a =
          end d out (let h' = rw (client_write, a, e) at h in ground arith)
          ∙ flush_conn_id q send_to ids n c d outbox out e

  pub client_round_id :
      (send_to : List Datagram → Datagram → Option IoErrorKind) (n : ℕ) (c : Conn)
      (outbox : List Datagram) (event : Event) (p : Progress Conn)
      → client_round q send_to n c outbox event ≡ some (ok p)
      → q.source_id (after_round p) ≡ q.source_id c
  unfolding client_round
  client_round_id send_to n c outbox poll_failed p h = absurd (ground arith)
  client_round_id send_to n c outbox timed_out p h =
      client_write_id send_to n (q.on_timeout c) outbox p h ∙ ids.on_timeout_id c
  client_round_id send_to n c outbox (packets l) p h = go (client_read q send_to c l) refl
    where
      go :
          (r : Run Conn)
          → client_read q send_to c l ≡ r
          → q.source_id (after_round p) ≡ q.source_id c
      go err e = absurd (let h' = rw (client_round, e) at h in ground arith)
      go panicked e = absurd (let h' = rw (client_round, e) at h in ground arith)
      go (ok c') e =
          client_write_id send_to n c' outbox p (rw (client_round, e) at h)
          ∙ client_read_id send_to l c c' e
