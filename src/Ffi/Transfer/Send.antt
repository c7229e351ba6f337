-- ===== src/Ffi/Transfer/Send.antt =====
-- What `dtp_send` does, and when `dtp_send` and `dtp_recv` refuse.
use nanwei_api_rust.Prelude.{
  ℕ, ◌≤◌, ◌<◌, ◌≡◌, ◌≢◌, refl, ◌⊎◌, inl, inr, Bool, true, false, List, [], ◌++◌, Option, none, some,
  length, take, arith, Bool-cases,
}
use nanwei_api_rust.Prelude.Int.{ℤ, pos, as_u64, as_i32_small}
use nanwei_api_rust.Prelude.Run.{ok}
use nanwei_api_rust.Quiche.{Quiche, Result, success, failure, SendLaws}
use nanwei_api_rust.World.{DtpConnection, update}
use nanwei_api_rust.Ffi.Errors.{
  error_to_c_codes, IsErrorCode, DtpError, dtp_error_code, dtp_closed, dtp_not_established,
}
use nanwei_api_rust.Ffi.Transfer.{recv_on, dtp_recv, send_result, send_on, dtp_send, is_ready}

-- Why a connection can carry no data, by whether it is closed and whether it is ready.
abbrev pub refusal : Bool → Bool → Option DtpError
refusal true ready = some dtp_closed
refusal false false = some dtp_not_established
refusal false true = none

-- `dtp_send` on a stream: the result, and what the stream has taken.
abbrev pub SendResult : List ℕ → ℤ → List ℕ → List ℕ → Type 0
SendResult buf ret before after =
    ((k : ℕ) × (ret ≡ pos k) × (k ≤ length buf) × (after ≡ before ++ take k buf))
    ⊎ (IsErrorCode ret × (after ≡ before))

module _ {Conn : Type 0} (q : Quiche Conn) where
  -- On a connection that can carry no data `dtp_recv` and `dtp_send` both return the reason, -22 for
  -- a closed connection and -42 for one that is not yet established. They change nothing and wake
  -- nobody.
  pub transfer_refused :
      (wake : ℕ → Bool) (heap : ℕ → Conn) (io : DtpConnection) (buflen id : ℤ) (buf : List ℕ)
      (fin : Bool) (e : DtpError)
      → refusal (q.is_closed (heap io.conn)) (is_ready q (heap io.conn)) ≡ some e
      → (dtp_recv q heap (some io) buflen (some id) (some fin) ≡ record {
        ret = dtp_error_code e;
        bytes = [];
        stream_id = some id;
        fin = some fin;
        state = heap;
      })
        × (dtp_send q wake heap (some io) buf fin id
            ≡ ok (record { ret = dtp_error_code e; woken = none; state = heap }))
  unfolding dtp_recv dtp_send recv_on send_on
  transfer_refused wake heap io buflen id buf fin e h =
      elim (Bool-cases (q.is_closed (heap io.conn))) [
        | inl t ↦ (ground arith, ground arith)
        | inr t ↦ elim (Bool-cases (is_ready q (heap io.conn))) [
          | inl u ↦ ground arith
          | inr u ↦ (ground arith, ground arith)
        ]
      ]

  send_result-SendResult :
      (sent : Conn → ℕ → List ℕ)
      → SendLaws q sent
      → (c : Conn) (s : ℕ) (buf : List ℕ) (fin : Bool) (r : Result ℕ)
      → (q.stream_send c s buf fin).0 ≡ r
      → length buf < 2147483648
      → SendResult buf (send_result q r) (sent c s) (sent (q.stream_send c s buf fin).1 s)
  unfolding send_result
  send_result-SendResult sent laws c s buf fin (success k) e h =
      let le : k ≤ length buf = laws.taken_le c s buf fin k e in
      inl (k, as_i32_small k (omega arith), le, laws.sent_success c s buf fin k e)
  send_result-SendResult sent laws c s buf fin (failure x) e h =
      inr (rw (error_to_c_codes x).3 (error_to_c_codes x).0, laws.sent_failure c s buf fin x e)

  -- On a connection that can carry data, with a waker that works, `dtp_send` of a buffer of an
  -- `int`'s length returns how many bytes the stream took, a prefix of the buffer behind what it had,
  -- or the code of an error, where the stream took nothing. It wakes the loop of the connection in
  -- both cases. Every other stream of the connection has taken what it had taken before, and every other
  -- connection is as it was.
  pub dtp_send-SendResult :
      (sent : Conn → ℕ → List ℕ)
      → SendLaws q sent
      → (wake : ℕ → Bool) (heap : ℕ → Conn) (io : DtpConnection) (buf : List ℕ) (fin : Bool)
        (id : ℤ)
      → refusal (q.is_closed (heap io.conn)) (is_ready q (heap io.conn)) ≡ none
      → wake io.waker ≡ true
      → length buf < 2147483648
      → (ret : ℤ) × (c : Conn) × (dtp_send q wake heap (some io) buf fin id
          ≡ ok (record { ret = ret; woken = some io.waker; state = update heap io.conn c }))
        × SendResult buf ret (sent (heap io.conn) (as_u64 id)) (sent c (as_u64 id))
        × ((j : ℕ) → as_u64 id ≢ j → sent c j ≡ sent (heap io.conn) j)
  unfolding dtp_send send_on
  dtp_send-SendResult sent laws wake heap io buf fin id h w l =
      let r = q.stream_send (heap io.conn) (as_u64 id) buf fin in
      (
        send_result q r.0,
        r.1,
        ground arith,
        send_result-SendResult sent laws (heap io.conn) (as_u64 id) buf fin r.0 refl l,
        λ j n. laws.sent_other (heap io.conn) (as_u64 id) j buf fin n,
      )
