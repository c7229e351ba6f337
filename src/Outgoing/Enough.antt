-- ===== src/Outgoing/Enough.antt =====
-- The fuel of the loop that sends packets, and the id of its connection.
use nanwei_api_rust.Prelude.{
  ℕ, suc, zero, ◌<◌, ◌≤◌, ◌≡◌, refl, ◌∙◌, false, List, ◌∷◌, Option, some, arith, Bool-cases,
  Option-cases, inl, inr,
}
use nanwei_api_rust.Prelude.Run.{Run, ok}
use nanwei_api_rust.Quiche.{Quiche, Result, success, failure, is_done, IdLaws}
use nanwei_api_rust.Os.{IoErrorKind, would_block, other}
use nanwei_api_rust.Outgoing.{Datagram}
use nanwei_api_rust.Outgoing.{flush_conn, fail_reason}

module _ {Conn : Type 0} (q : Quiche Conn)
    (send_to : List Datagram → Datagram → Option IoErrorKind) where
  -- More fuel gives the same result.
  pub flush_conn_more :
      (n m : ℕ) (c : Conn) (outbox : List Datagram) (r : Run (Conn × List Datagram))
      → n ≤ m
      → flush_conn q send_to n c outbox ≡ some r
      → flush_conn q send_to m c outbox ≡ some r
  unfolding flush_conn
  flush_conn_more zero m c outbox r le h = absurd (ground arith)
  flush_conn_more (suc n) zero c outbox r le h = absurd (ground arith)
  flush_conn_more (suc n) (suc m) c outbox r le h =
      go (q.send c).0 refl λ o. flush_conn_more n m (q.send c).1 o r (ground arith)
    where
      go :
          (a : Result Datagram)
          → (q.send c).0 ≡ a
          → ((o : List Datagram)
              → flush_conn q send_to n (q.send c).1 o ≡ some r
              → flush_conn q send_to m (q.send c).1 o ≡ some r)
          → flush_conn q send_to (suc m) c outbox ≡ some r
      go (failure e) w ih = rw (flush_conn, w) (rw (flush_conn, w) at h)
      go (success d) w ih = elim (Option-cases (send_to outbox d)) [
        | inl v ↦ rw (flush_conn, w, v) (ih (d ∷ outbox) (rw (flush_conn, w, v) at h))
        | inr (k, v) ↦ rw (flush_conn, w, v) (rw (flush_conn, w, v) at h)
      ]

  -- `send` makes a packet only of what the connection still has to send.
  module _ (pending : Conn → ℕ)
      (sends : (c : Conn) (d : Datagram)
        → (q.send c).0 ≡ success d
        → pending (q.send c).1 < pending c) where
    pub flush_conn_enough :
        (n : ℕ) (c : Conn) (outbox : List Datagram)
        → pending c < n
        → (r : Run (Conn × List Datagram)) × (flush_conn q send_to n c outbox ≡ some r)
    unfolding flush_conn
    flush_conn_enough zero c outbox h = absurd (ground arith)
    flush_conn_enough (suc n) c outbox h = go (q.send c).0 refl (flush_conn_enough n (q.send c).1)
      where
        go :
            (a : Result Datagram)
            → (q.send c).0 ≡ a
            → ((o : List Datagram)
                → pending (q.send c).1 < n
                → (r : Run (Conn × List Datagram)) × flush_conn q send_to n (q.send c).1 o ≡ some r)
            → (r : Run (Conn × List Datagram)) × flush_conn q send_to (suc n) c outbox ≡ some r
        go (failure e) w ih = elim (Bool-cases (is_done e)) [
          | inl b ↦ rw (flush_conn, w, b) (_, refl)
          | inr b ↦ rw (flush_conn, w, b) (_, refl)
        ]
        go (success d) w ih = elim (Option-cases (send_to outbox d)) [
          | inl v ↦ rw (flush_conn, w, v) (ih (d ∷ outbox) (ground (arith, sends c d w)))
          | inr (would_block, v) ↦ rw (flush_conn, w, v) (_, refl)
          | inr (other, v) ↦ rw (flush_conn, w, v) (_, refl)
        ]

  module _ (ids : IdLaws q) where
    pub flush_conn_id :
        (n : ℕ) (c c' : Conn) (outbox outbox' : List Datagram)
        → flush_conn q send_to n c outbox ≡ some (ok (c', outbox'))
        → q.source_id c' ≡ q.source_id c
    unfolding flush_conn
    flush_conn_id zero c c' outbox outbox' h = absurd (ground arith)
    flush_conn_id (suc n) c c' outbox outbox' h =
        go (q.send c).0 refl λ o. flush_conn_id n (q.send c).1 c' o outbox'
      where
        go :
            (a : Result Datagram)
            → (q.send c).0 ≡ a
            → ((o : List Datagram)
                → flush_conn q send_to n (q.send c).1 o ≡ some (ok (c', outbox'))
                → q.source_id c' ≡ q.source_id (q.send c).1)
            → q.source_id c' ≡ q.source_id c
        go (failure e) w ih =
            let h' = rw (flush_conn, w) at h in
            ground (arith, ids.send_id c, ids.close_id (q.send c).1 false 1 fail_reason)
        go (success d) w ih = elim (Option-cases (send_to outbox d)) [
          | inl v ↦ ih (d ∷ outbox) (rw (flush_conn, w, v) at h) ∙ ids.send_id c
          | inr (would_block, v) ↦
              let h' = rw (flush_conn, w, v) at h in ground (arith, ids.send_id c)
          | inr (other, v) ↦ let h' = rw (flush_conn, w, v) at h in absurd (ground arith)
        ]
