-- ===== src/Main/Tasks.antt =====
-- The threads that `main` of src/main.rs starts: the one that accepts clients, one for each client that
-- it accepts, and the tasks of the clients. What the functions of src/ffi.rs return, call after call,
-- is an argument, as in `Main`. Sleeping is left out.
pub mod Conversation
pub mod AllAccepted
use nanwei_api_rust.Prelude.{
  ℕ, zero, suc, Bool, true, List, [], ◌∷◌, ◌++◌, Option, none, some, ◌==◌, if◌then◌else◌,
}
use nanwei_api_rust.Prelude.Int.{ℤ, pos, int_eq}
use nanwei_api_rust.Prelude.Run.{Run, ok, err, panicked}
use nanwei_api_rust.World.{SharedStreams, DtpConnection}
use nanwei_api_rust.Ffi.Sockets.{DtpServerConns}
use nanwei_api_rust.Ffi.Accept.{waiting, returned, dtp_accept}
use nanwei_api_rust.Main.{framed, dtp_util_send, dtp_util_recv}

-- The loop that calls `dtp_util_recv` until there is a text: for each call, what its calls of
-- `dtp_recv` return.
unfoldable pub recv_until : (logs_info : Bool) → List (List (ℤ × List ℕ)) → Option (Run (List ℕ))
recv_until logs_info [] = none
recv_until logs_info (calls ∷ more) =
    let rest = recv_until logs_info more in
    elim (dtp_util_recv logs_info calls) [
      | none ↦ none
      | some err ↦ some err
      | some panicked ↦ some panicked
      | some (ok []) ↦ rest
      | some (ok (b ∷ text)) ↦ some (ok (b ∷ text))
    ]

-- The loop around `dtp_close`: any result but 1 is tried again.
unfoldable pub close_until : List ℤ → Option (Unit {0})
close_until [] = none
close_until (ret ∷ rets) = let rest = close_until rets in if ret == pos 1 then some tt else rest

-- `format!("[processed]{}", result)`
unfoldable pub processed : List ℕ → List ℕ
processed result =
    b'[' ∷ b'p' ∷ b'r' ∷ b'o' ∷ b'c' ∷ b'e' ∷ b's' ∷ b's' ∷ b'e' ∷ b'd' ∷ b']' ∷ result

-- The text that was received, and the bytes that were given to `dtp_send`.
pub record Served : Type 0 where
  pub received : List ℕ
  pub payload : List ℕ
  pub sent : ℤ

-- The thread of an accepted client.
unfoldable pub serve_client :
    (logs_info wake : Bool) → List (List (ℤ × List ℕ)) → List ℤ → List ℤ → Option (Run Served)
serve_client logs_info wake recvs rets closes = elim (recv_until logs_info recvs) [
  | none ↦ none
  | some err ↦ some err
  | some panicked ↦ some panicked
  | some (ok result) ↦ elim (dtp_util_send wake rets) [
    | none ↦ none
    | some err ↦ some err
    | some panicked ↦ some panicked
    | some (ok ret) ↦ elim (close_until closes) [
      | none ↦ none
      | some u ↦
          some (ok (record { received = result; payload = framed (processed result); sent = ret }))
    ]
  ]
]

pub record Asked : Type 0 where
  pub payload : List ℕ
  pub sent : ℤ
  pub result : List ℕ
  pub closed : Bool

-- The task of a client after `dtp_connect`; `msg` is the number of its socket as a text, and the last
-- argument is what `dtp_close` returns.
unfoldable pub run_client :
    (logs_info wake : Bool) → List ℕ → List ℤ → List (List (ℤ × List ℕ)) → ℤ → Option (Run Asked)
run_client logs_info wake msg rets recvs ret = elim (dtp_util_send wake rets) [
  | none ↦ none
  | some err ↦ some err
  | some panicked ↦ some panicked
  | some (ok send) ↦ elim (recv_until logs_info recvs) [
    | none ↦ none
    | some err ↦ some err
    | some panicked ↦ some panicked
    | some (ok text) ↦
        some
          (ok (record { payload = framed msg; sent = send; result = text; closed = ret == pos 1 }))
  ]
]

-- The accepting thread, for so many turns of its loop with nothing else at work on the map: the handles
-- for which it has started threads, in their order, and the map.
unfoldable pub accept_clients :
    DtpServerConns → ℕ → SharedStreams → List DtpConnection × SharedStreams
accept_clients conns zero m = ([], m)
accept_clients conns (suc n) m = elim (dtp_accept (some conns) true (m ∷ [])) [
  | waiting ↦ ([], m)
  | returned none _ ↦ ([], m)
  | returned (some io) none ↦ ([], m)
  | returned (some io) (some m') ↦ let rest = accept_clients conns n m' in (io ∷ rest.0, rest.1)
]
