-- ===== src/Tests/Handles.antt =====
-- Examples of the theorems on the handles that src/ffi.rs gives out.
use nanwei_api_rust.Prelude.{
  ℕ, ◌≡◌, ◌≢◌, refl, true, false, List, [], ◌∷◌, Option, none, some, arith, bytes_eq,
}
use mathlib.Core.List.{Memᴰ}
use nanwei_api_rust.Prelude.Int.{ℤ, pos, negsuc, as_i32, as_u64, int_eq}
use nanwei_api_rust.Prelude.Map.{get, IsUnique}
use nanwei_api_rust.Prelude.Run.{ok, panicked}
use nanwei_api_rust.Quiche.{Error}
use nanwei_api_rust.World.{connected, accepted, SharedStreams, DtpConnection, update}
use nanwei_api_rust.Api.{World, initial, DtpClient}
use nanwei_api_rust.Ffi.Errors.{
  error_to_c, error_of_c, IsErrorCode, DtpError, dtp_error_code, dtp_not_established,
  error_to_c_codes,
}
use nanwei_api_rust.Ffi.Sockets.{DtpServerConns}
use nanwei_api_rust.Ffi.Transfer.{Received, dtp_recv, dtp_send}
use nanwei_api_rust.Ffi.Transfer.Recv.{
  Skips, Outcome, IsRecvResult, dtp_recv_first, dtp_recv-IsRecvResult,
}
use nanwei_api_rust.Ffi.Transfer.Send.{SendResult, transfer_refused, dtp_send-SendResult}
use nanwei_api_rust.Ffi.Accept.{accept_pass, accept_loop, handle_of, dtp_accept, returned}
use nanwei_api_rust.Ffi.Accept.Pass.{HandsOut, dtp_accept-HandsOut}
use nanwei_api_rust.Ffi.Close.{dtp_close}
use nanwei_api_rust.Ffi.Close.Branches.{dtp_accept-dtp_close}
use nanwei_api_rust.Tests.Model.{Link, link, library, sent, sends, reads_fit}

error_to_c_codes_example :
    IsErrorCode (error_to_c Error.flow_control)
    × (error_of_c (error_to_c Error.flow_control) ≡ some Error.flow_control)
    × ((d : DtpError) → error_to_c Error.flow_control ≢ dtp_error_code d)
    × (as_i32 (as_u64 (error_to_c Error.flow_control)) ≡ error_to_c Error.flow_control)
error_to_c_codes_example = error_to_c_codes Error.flow_control

abbrev handle : DtpConnection
handle = record {
  is_server_side = false;
  conn = 0;
  waker = 2;
  sockid = some (pos 3);
  pconns = none;
  conn_id = none;
}

abbrev heap : ℕ → Link
heap r = link

abbrev new_heap : ℕ → Link
new_heap r = record link { established = false }

dtp_recv_first_example :
    (rest : List ℕ) × (d : Link) × (r : Received Link) × Skips library
      (as_u64 (pos 10))
      (0 ∷ 4 ∷ [])
      link
      rest
      d
    × Outcome library (as_u64 (pos 10)) (pos 0) false rest d r
    × (dtp_recv library heap (some handle) (pos 10) (some (pos 0)) (some false) ≡ record {
      ret = r.ret;
      bytes = r.bytes;
      stream_id = r.stream_id;
      fin = r.fin;
      state = update heap 0 r.state;
    })
dtp_recv_first_example = dtp_recv_first library heap handle (pos 10) (pos 0) false refl refl

dtp_recv-IsRecvResult_example :
    IsRecvResult 10 (dtp_recv library heap (some handle) (pos 10) (some (pos 0)) (some false)).ret
dtp_recv-IsRecvResult_example =
    dtp_recv-IsRecvResult library reads_fit heap (some handle) 10 (some (pos 0)) (some false)
      (omega arith)

transfer_refused_example :
    (dtp_recv library new_heap (some handle) (pos 10) (some (pos 0)) (some false) ≡ record {
      ret = negsuc 41;
      bytes = [];
      stream_id = some (pos 0);
      fin = some false;
      state = new_heap;
    })
    × (dtp_send library (λ w. true) new_heap (some handle) (1 ∷ 2 ∷ []) false (pos 0)
        ≡ ok (record { ret = negsuc 41; woken = none; state = new_heap }))
unfolding dtp_error_code
transfer_refused_example =
    transfer_refused library (λ w. true) new_heap handle (pos 10) (pos 0) (1 ∷ 2 ∷ []) false
      dtp_not_established refl

dtp_send-SendResult_example :
    (ret : ℤ) × (c : Link) × (dtp_send library
        (λ w. true)
        heap
        (some handle)
        (1 ∷ 2 ∷ [])
        true
        (pos 4)
      ≡ ok (record { ret = ret; woken = some 2; state = update heap 0 c }))
    × SendResult (1 ∷ 2 ∷ []) ret [] (sent c (as_u64 (pos 4)))
    × ((j : ℕ) → as_u64 (pos 4) ≢ j → sent c j ≡ [])
dtp_send-SendResult_example =
    dtp_send-SendResult library sent sends (λ w. true) heap handle (1 ∷ 2 ∷ []) true (pos 4) refl
      refl (omega arith)

abbrev conns : DtpServerConns
conns = record { streams = 5; waker = 6; sockid = pos 3 }

-- One connection that has been accepted, and one that has not.
abbrev statuses : SharedStreams
statuses = (1 ∷ [], (10, accepted)) ∷ (2 ∷ [], (11, connected)) ∷ []

abbrev all_accepted : SharedStreams
all_accepted = (1 ∷ [], (10, accepted)) ∷ (2 ∷ [], (11, accepted)) ∷ []

statuses-IsUnique : IsUnique statuses
unfolding get
statuses-IsUnique = (refl, (refl, tt))

first_connected : (accept_pass statuses).0 ≡ some (2 ∷ [], 11)
unfolding accept_pass
first_connected = refl

null_when_all_accepted :
    dtp_accept (some conns) false (all_accepted ∷ []) ≡ returned none (some all_accepted)
unfolding dtp_accept accept_loop accept_pass
null_when_all_accepted = refl

entry_of_two : get (2 ∷ []) all_accepted ≡ some (11, accepted)
unfolding get
entry_of_two = refl

-- A blocking call that finds nothing at first.
second_pass_returns :
    dtp_accept (some conns) true ([] ∷ statuses ∷ [])
    ≡ returned (some (handle_of conns (2 ∷ [], 11))) (some all_accepted)
unfolding dtp_accept accept_loop accept_pass
second_pass_returns = refl

dtp_accept-HandsOut_example :
    (m : SharedStreams) × Memᴰ m ([] ∷ statuses ∷ [])
    × HandsOut conns m (handle_of conns (2 ∷ [], 11)) all_accepted
dtp_accept-HandsOut_example =
    dtp_accept-HandsOut conns true ([] ∷ statuses ∷ []) all_accepted (handle_of conns (2 ∷ [], 11))
      (tt, (statuses-IsUnique, tt)) second_pass_returns

abbrev finished : World Link
finished = record {
  conn = λ r. record link { closed = true };
  streams = λ r. all_accepted;
  api = initial;
  next_ref = 20;
}

abbrev running : World Link
running = record finished { conn = heap }

abbrev join : DtpClient → Link → Option Link
join client c = some c

dtp_accept-dtp_close_example :
    dtp_close library (λ w. true) join true running (some (handle_of conns (2 ∷ [], 11))) ≡ panicked
unfolding handle_of
dtp_accept-dtp_close_example =
    dtp_accept-dtp_close library (λ w. true) join true running conns true ([] ∷ statuses ∷ [])
      (handle_of conns (2 ∷ [], 11)) (some all_accepted) second_pass_returns refl
