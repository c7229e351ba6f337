-- ===== src/Ffi/Transfer.antt =====
-- `dtp_recv`, `dtp_send` and `dtp_connect_is_close` of src/ffi.rs. A pointer that may be null is an
-- `Option` of what it points to. Each function locks the connection for the whole of its work, so it
-- is one step on the connection; other connections are not touched.
pub mod Recv
pub mod Send
use nanwei_api_rust.Prelude.{
  ℕ, Bool, true, false, not, ◌&&◌, List, [], ◌∷◌, Option, none, some, if◌then◌else◌, ◌||◌, length,
}
use nanwei_api_rust.Prelude.Int.{ℤ, pos, as_i32, as_u64}
use nanwei_api_rust.Prelude.Run.{Run, ok, panicked, ◌>>=◌, ◌>>◌, expect}
use nanwei_api_rust.Quiche.{Quiche, Result, success, failure, Error, is_done}
use nanwei_api_rust.World.{DtpConnection, update}
use nanwei_api_rust.Ffi.Errors.{
  error_to_c, dtp_error_code, dtp_closed, dtp_not_established, dtp_null,
}

-- What `dtp_recv` leaves behind: its result, the bytes at the front of the buffer, the targets of the
-- two pointers, and the state, one connection in the loop and all of them in the whole function.
pub record Received (S : Type 0) : Type 0 where
  pub ret : ℤ
  pub bytes : List ℕ
  pub stream_id : Option ℤ
  pub fin : Option Bool
  pub state : S

-- What `dtp_send` leaves behind; the waker is the one that it woke.
pub record Sent (S : Type 0) : Type 0 where
  pub ret : ℤ
  pub woken : Option ℕ
  pub state : S

-- A `bool as c_int`.
abbrev pub as_c_int : Bool → ℤ
as_c_int true = pos 1
as_c_int false = pos 0

module _ {Conn : Type 0} (q : Quiche Conn) where
  -- The loop over the readable streams. A stream with nothing to read is passed over.
  unfoldable pub recv_loop : List ℕ → ℕ → ℤ → Bool → Conn → Received Conn
  recv_loop [] buflen id fin c = record {
    ret = as_i32 0;
    bytes = [];
    stream_id = some id;
    fin = some fin;
    state = c;
  }
  recv_loop (s ∷ rest) buflen id fin c = elim (q.stream_recv c s buflen).0 [
    | success v ↦ record {
      ret = as_i32 (length v.0);
      bytes = v.0;
      stream_id = some (as_i32 s);
      fin = some v.1;
      state = (q.stream_recv c s buflen).1;
    }
    | failure e ↦
        let next = recv_loop rest buflen id fin (q.stream_recv c s buflen).1 in
        if is_done e then next else record {
          ret = as_i32 (as_u64 (error_to_c e));
          bytes = [];
          stream_id = some id;
          fin = some fin;
          state = (q.stream_recv c s buflen).1;
        }
  ]

  abbrev pub is_ready : Conn → Bool
  is_ready c = q.is_established c || q.is_in_early_data c

  unfoldable pub recv_on : (ℕ → Conn) → DtpConnection → ℤ → ℤ → Bool → Received (ℕ → Conn)
  recv_on heap io buflen id fin =
      let c = heap io.conn in
      let r = recv_loop (q.readable c) (as_u64 buflen) id fin c in
      if q.is_closed c
      then record {
        ret = dtp_error_code dtp_closed;
        bytes = [];
        stream_id = some id;
        fin = some fin;
        state = heap;
      }
      else (if not (is_ready c)
          then record {
            ret = dtp_error_code dtp_not_established;
            bytes = [];
            stream_id = some id;
            fin = some fin;
            state = heap;
          }
          else record {
            ret = r.ret;
            bytes = r.bytes;
            stream_id = r.stream_id;
            fin = r.fin;
            state = update heap io.conn r.state;
          })

  unfoldable pub dtp_recv :
      (ℕ → Conn) → Option DtpConnection → ℤ → Option ℤ → Option Bool → Received (ℕ → Conn)
  dtp_recv heap (some io) buflen (some id) (some fin) = recv_on heap io buflen id fin
  dtp_recv heap _ buflen id fin = record {
    ret = dtp_error_code dtp_null;
    bytes = [];
    stream_id = id;
    fin = fin;
    state = heap;
  }

  unfoldable pub send_result : Result ℕ → ℤ
  send_result (success size) = as_i32 size
  send_result (failure e) = as_i32 (as_u64 (error_to_c e))

  -- `wake` is whether waking a waker succeeds.
  unfoldable pub send_on :
      (wake : ℕ → Bool) → (ℕ → Conn) → DtpConnection → List ℕ → Bool → ℤ → Run (Sent (ℕ → Conn))
  send_on wake heap io buf fin id =
      let c = heap io.conn in
      let r = q.stream_send c (as_u64 id) buf fin in
      if q.is_closed c
      then ok (record { ret = dtp_error_code dtp_closed; woken = none; state = heap })
      else (if not (is_ready c)
          then ok (record { ret = dtp_error_code dtp_not_established; woken = none; state = heap })
          else (do
            expect (wake io.waker)
            ok (record {
              ret = send_result r.0;
              woken = some io.waker;
              state = update heap io.conn r.1;
            })))

  unfoldable pub dtp_send :
      (wake : ℕ → Bool)
      → (ℕ → Conn)
      → Option DtpConnection
      → List ℕ
      → Bool
      → ℤ
      → Run (Sent (ℕ → Conn))
  dtp_send wake heap (some io) buf fin id = send_on wake heap io buf fin id
  dtp_send wake heap none buf fin id =
      ok (record { ret = dtp_error_code dtp_null; woken = none; state = heap })

  unfoldable pub dtp_connect_is_close : (ℕ → Conn) → Option DtpConnection → ℤ
  dtp_connect_is_close heap (some io) = as_c_int (q.is_closed (heap io.conn))
  dtp_connect_is_close heap none = dtp_error_code dtp_null
