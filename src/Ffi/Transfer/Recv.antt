-- ===== src/Ffi/Transfer/Recv.antt =====
-- What `dtp_recv` returns.
use nanwei_api_rust.Prelude.{
  ℕ, ◌≤◌, ◌<◌, ◌≡◌, ◌≢◌, refl, ◌⊎◌, inl, inr, Bool, true, false, List, [], ◌∷◌, Option, none, some,
  length, arith, Bool-cases,
}
use nanwei_api_rust.Prelude.Int.{ℤ, pos, negsuc, as_i32, as_u64, as_i32_small, as_u64_small}
use nanwei_api_rust.Quiche.{Quiche, Result, success, failure, Error, is_done}
use nanwei_api_rust.World.{DtpConnection, update}
use nanwei_api_rust.Ffi.Errors.{
  error_to_c, error_to_c_codes, error_to_c-IsFailureCode, IsFailureCode, dtp_error_code,
}
use nanwei_api_rust.Ffi.Transfer.{Received, recv_loop, recv_on, dtp_recv, is_ready}

-- Streams that have nothing to read are passed over, each changing the connection as it is asked.
pub data Skips {Conn : Type 0} (q : Quiche Conn) (n : ℕ)
    : List ℕ → Conn → List ℕ → Conn → Type 0 where
  here : {l : List ℕ} {c : Conn} → Skips q n l c l c
  skip :
      {s : ℕ} {l m : List ℕ} {c d : Conn} (e : Error)
      → (q.stream_recv c s n).0 ≡ failure e
      → is_done e ≡ true
      → Skips q n l (q.stream_recv c s n).1 m d
      → Skips q n (s ∷ l) c m d

-- What the first stream that is not passed over gives, or that there is none.
pub data Outcome {Conn : Type 0} (q : Quiche Conn) (n : ℕ) (id : ℤ) (fin : Bool)
    : List ℕ → Conn → Received Conn → Type 0 where
  nothing :
      {c : Conn} {r : Received Conn}
      → r ≡ record { ret = pos 0; bytes = []; stream_id = some id; fin = some fin; state = c }
      → Outcome q n id fin [] c r
  read :
      {s : ℕ} {l : List ℕ} {c : Conn} {r : Received Conn} (bytes : List ℕ) (finish : Bool)
      → (q.stream_recv c s n).0 ≡ success (bytes, finish)
      → r ≡ record {
        ret = as_i32 (length bytes);
        bytes = bytes;
        stream_id = some (as_i32 s);
        fin = some finish;
        state = (q.stream_recv c s n).1;
      }
      → Outcome q n id fin (s ∷ l) c r
  failed :
      {s : ℕ} {l : List ℕ} {c : Conn} {r : Received Conn} (e : Error)
      → (q.stream_recv c s n).0 ≡ failure e
      → is_done e ≡ false
      → r ≡ record {
        ret = error_to_c e;
        bytes = [];
        stream_id = some id;
        fin = some fin;
        state = (q.stream_recv c s n).1;
      }
      → Outcome q n id fin (s ∷ l) c r

-- What `dtp_recv` may return for a buffer of n bytes: how many bytes were read, or a code. The code
-- -1 is not among them.
abbrev pub IsRecvResult : ℕ → ℤ → Type 0
IsRecvResult n (pos k) = k ≤ n
IsRecvResult n (negsuc k) = (k ≢ 0) × ((k < 16) ⊎ (k ≡ 21) ⊎ (k ≡ 41) ⊎ (k ≡ 403))

failure-IsRecvResult : (n : ℕ) (z : ℤ) → IsFailureCode z → IsRecvResult n z
failure-IsRecvResult n (pos k) h = absurd h
failure-IsRecvResult n (negsuc k) h = (h.0, inl h.1)

module _ {Conn : Type 0} (q : Quiche Conn) where
  -- The loop.
  recv_loop_first :
      (ids : List ℕ) (n : ℕ) (id : ℤ) (fin : Bool) (c : Conn)
      → (rest : List ℕ) × (d : Conn) × Skips q n ids c rest d
        × Outcome q n id fin rest d (recv_loop q ids n id fin c)
  unfolding recv_loop
  recv_loop_first [] n id fin c = ([], c, here, nothing (rw (as_i32_small 0 (omega arith))))
  recv_loop_first (s ∷ ids) n id fin c =
      go (q.stream_recv c s n).0 refl (recv_loop_first ids n id fin (q.stream_recv c s n).1)
    where
      go :
          (r : Result (List ℕ × Bool))
          → (q.stream_recv c s n).0 ≡ r
          → ((rest : List ℕ) × (d : Conn) × Skips q n ids (q.stream_recv c s n).1 rest d
              × Outcome q n id fin rest d (recv_loop q ids n id fin (q.stream_recv c s n).1))
          → (rest : List ℕ) × (d : Conn) × Skips q n (s ∷ ids) c rest d
            × Outcome q n id fin rest d (recv_loop q (s ∷ ids) n id fin c)
      go (success (bytes, finish)) e ih =
          ((s ∷ ids), c, here, read bytes finish e (rw (e, recv_loop)))
      go (failure x) e (rest, d, sk, out) = elim (Bool-cases (is_done x)) [
        | inl t ↦ (rest, d, skip x e t sk, rw (e, t, recv_loop) out)
        | inr t ↦
            ((s ∷ ids), c, here, failed x e t (rw (e, t, recv_loop) (rw (error_to_c_codes x).3)))
      ]

  -- On a live connection `dtp_recv` gives what the first readable stream gives that has something to
  -- say: its bytes and whether it ended, or the code of its error. Streams before it report that they
  -- have nothing. If no stream has anything the result is 0. The two out-parameters are written only
  -- when bytes are read, and no other connection changes.
  pub dtp_recv_first :
      (heap : ℕ → Conn) (io : DtpConnection) (buflen id : ℤ) (fin : Bool)
      → q.is_closed (heap io.conn) ≡ false
      → is_ready q (heap io.conn) ≡ true
      → (rest : List ℕ) × (d : Conn) × (r : Received Conn) × Skips q
          (as_u64 buflen)
          (q.readable (heap io.conn))
          (heap io.conn)
          rest
          d
        × Outcome q (as_u64 buflen) id fin rest d r
        × (dtp_recv q heap (some io) buflen (some id) (some fin) ≡ record {
          ret = r.ret;
          bytes = r.bytes;
          stream_id = r.stream_id;
          fin = r.fin;
          state = update heap io.conn r.state;
        })
  unfolding dtp_recv recv_on
  dtp_recv_first heap io buflen id fin open_ ready =
      let (rest, d, sk, out) =
        recv_loop_first (q.readable (heap io.conn)) (as_u64 buflen) id fin (heap io.conn) in
      (
        rest,
        d,
        recv_loop q (q.readable (heap io.conn)) (as_u64 buflen) id fin (heap io.conn),
        sk,
        out,
        rw (open_, ready),
      )

  recv_loop-IsRecvResult :
      ((c : Conn) (s n : ℕ) (bytes : List ℕ) (fin : Bool)
        → (q.stream_recv c s n).0 ≡ success (bytes, fin)
        → length bytes ≤ n)
      → (ids : List ℕ) (n : ℕ) (id : ℤ) (fin : Bool) (c : Conn) → n < 2147483648
      → IsRecvResult n (recv_loop q ids n id fin c).ret
  unfolding recv_loop
  recv_loop-IsRecvResult fits [] n id fin c h = rw (as_i32_small 0 (omega arith)) (omega arith)
  recv_loop-IsRecvResult fits (s ∷ ids) n id fin c h =
      go (q.stream_recv c s n).0 refl
        (recv_loop-IsRecvResult fits ids n id fin (q.stream_recv c s n).1 h)
    where
      go :
          (r : Result (List ℕ × Bool))
          → (q.stream_recv c s n).0 ≡ r
          → IsRecvResult n (recv_loop q ids n id fin (q.stream_recv c s n).1).ret
          → IsRecvResult n (recv_loop q (s ∷ ids) n id fin c).ret
      go (success (bytes, finish)) e ih =
          let le = fits c s n bytes finish e in
          rw (e, recv_loop, as_i32_small (length bytes) (omega arith)) le
      go (failure x) e ih = elim (Bool-cases (is_done x)) [
        | inl t ↦ rw (e, t, recv_loop) ih
        | inr t ↦
            rw (e, t, recv_loop, (error_to_c_codes x).3)
              (failure-IsRecvResult n _ (error_to_c-IsFailureCode x t))
      ]

  recv_on-IsRecvResult :
      ((c : Conn) (s n : ℕ) (bytes : List ℕ) (fin : Bool)
        → (q.stream_recv c s n).0 ≡ success (bytes, fin)
        → length bytes ≤ n)
      → (heap : ℕ → Conn) (io : DtpConnection) (n : ℕ) (id : ℤ) (fin : Bool) → n < 2147483648
      → IsRecvResult n (recv_on q heap io (pos n) id fin).ret
  unfolding recv_on dtp_error_code
  recv_on-IsRecvResult fits heap io n id fin h = elim (Bool-cases (q.is_closed (heap io.conn))) [
    | inl t ↦ rw t (omega arith)
    | inr t ↦ rw t (elim (Bool-cases (is_ready q (heap io.conn))) [
      | inl u ↦ rw (u, as_u64_small n (omega arith)) (recv_loop-IsRecvResult fits _ n id fin _ h)
      | inr u ↦ rw u (omega arith)
    ])
  ]

  -- If a read never gives more than the buffer holds, `dtp_recv` with a buffer of an `int`'s length
  -- returns a length within the buffer, an error's code from -2 to -16, -22, -42 or -404; never -1,
  -- whatever the pointers and the state of the connection.
  pub dtp_recv-IsRecvResult :
      ((c : Conn) (s n : ℕ) (bytes : List ℕ) (fin : Bool)
        → (q.stream_recv c s n).0 ≡ success (bytes, fin)
        → length bytes ≤ n)
      → (heap : ℕ → Conn) (io : Option DtpConnection) (n : ℕ) (id : Option ℤ) (fin : Option Bool)
      → n < 2147483648
      → IsRecvResult n (dtp_recv q heap io (pos n) id fin).ret
  unfolding dtp_recv dtp_error_code
  dtp_recv-IsRecvResult fits heap none n id fin h = omega arith
  dtp_recv-IsRecvResult fits heap (some io) n none fin h = omega arith
  dtp_recv-IsRecvResult fits heap (some io) n (some id) none h = omega arith
  dtp_recv-IsRecvResult fits heap (some io) n (some id) (some fin) h =
      recv_on-IsRecvResult fits heap io n id fin h
