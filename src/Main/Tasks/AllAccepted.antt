-- ===== src/Main/Tasks/AllAccepted.antt =====
-- The accepting thread of src/main.rs gets every client that waits.
use nanwei_api_rust.Prelude.{
  ℕ, ◌≡◌, ◌≢◌, Option-cases, refl, true, inl, inr, List, [], ◌∷◌, Option, none, some, length, arith,
  Bool-cases, if◌then◌else◌,
}
use nanwei_api_rust.World.{SharedStreams, DtpConnection}
use nanwei_api_rust.Ffi.Sockets.{DtpServerConns}
use nanwei_api_rust.Ffi.Accept.{
  is_connected, accept_pass, accept_loop, dtp_accept, waiting, returned, handle_of,
}
use nanwei_api_rust.Main.Tasks.{accept_clients}

-- The clients of a status map that wait to be accepted, in its order.
abbrev pub waiting_of : SharedStreams → List (List ℕ × ℕ)
waiting_of [] = []
waiting_of ((scid, (conn, status)) ∷ m) =
    if is_connected status then (scid, conn) ∷ waiting_of m else waiting_of m

abbrev pub handles_of : DtpServerConns → List (List ℕ × ℕ) → List DtpConnection
handles_of conns [] = []
handles_of conns (found ∷ l) = handle_of conns found ∷ handles_of conns l

pub accept_pass-waiting_of :
    (m : SharedStreams) (found : List ℕ × ℕ) (l : List (List ℕ × ℕ))
    → waiting_of m ≡ found ∷ l
    → ((accept_pass m).0 ≡ some found) × (waiting_of (accept_pass m).1 ≡ l)
unfolding accept_pass
accept_pass-waiting_of [] found l h = absurd (ground arith)
accept_pass-waiting_of ((scid, (conn, status)) ∷ m) found l h =
    elim (Bool-cases (is_connected status)) [
      | inl t ↦ (ground arith, ground arith)
      | inr t ↦
          let (x, y) = accept_pass-waiting_of m found l (ground arith) in
          (ground arith, ground arith)
    ]

pub accept_pass-none : (m : SharedStreams) → waiting_of m ≡ [] → (accept_pass m).0 ≡ none
unfolding accept_pass
accept_pass-none [] h = refl
accept_pass-none ((scid, (conn, status)) ∷ m) h = ground (arith, accept_pass-none m)

dtp_accept_idle :
    (conns : DtpServerConns) (m : SharedStreams)
    → (accept_pass m).0 ≡ none
    → dtp_accept (some conns) true (m ∷ []) ≡ waiting
unfolding dtp_accept accept_loop
dtp_accept_idle conns m e = rw (dtp_accept, accept_loop, e) refl

pub dtp_accept_next :
    (conns : DtpServerConns) (m : SharedStreams) (found : List ℕ × ℕ)
    → (accept_pass m).0 ≡ some found
    → dtp_accept (some conns) true (m ∷ [])
      ≡ returned (some (handle_of conns found)) (some (accept_pass m).1)
unfolding dtp_accept accept_loop
dtp_accept_next conns m found e = rw (dtp_accept, accept_loop, e) refl

accept_clients_lem :
    (conns : DtpServerConns) (l : List (List ℕ × ℕ)) (m : SharedStreams)
    → waiting_of m ≡ l
    → (m' : SharedStreams) × (accept_clients conns (length l) m ≡ (handles_of conns l, m'))
      × (waiting_of m' ≡ [])
unfolding accept_clients
accept_clients_lem conns [] m h = (m, refl, h)
accept_clients_lem conns (found ∷ l) m h =
    let (x, y) = accept_pass-waiting_of m found l h in
    let (m', e, w) = accept_clients_lem conns l (accept_pass m).1 y in
    (m', rw (accept_clients, dtp_accept_next conns m found x, e) refl, w)

-- When nothing else works on the status map, the accepting thread starts one thread for each client
-- that waits, in the order of the map, in as many turns of its loop, and then waits in `dtp_accept`.
pub accept_clients_all :
    (conns : DtpServerConns) (m : SharedStreams)
    → (m' : SharedStreams) × (accept_clients conns (length (waiting_of m)) m
        ≡ (handles_of conns (waiting_of m), m'))
      × (dtp_accept (some conns) true (m' ∷ []) ≡ waiting)
accept_clients_all conns m =
    let (m', e, w) = accept_clients_lem conns (waiting_of m) m refl in
    (m', e, dtp_accept_idle conns m' (accept_pass-none m' w))

-- A call of `dtp_accept` on a server's handle that blocks never returns null, whatever maps it sees.
pub dtp_accept_never_null :
    (conns : DtpServerConns) (seen : List SharedStreams) (m : Option SharedStreams)
    → dtp_accept (some conns) true seen ≢ returned none m
unfolding dtp_accept accept_loop
dtp_accept_never_null conns [] m h = absurd (ground arith)
dtp_accept_never_null conns (m₀ ∷ seen) m h = elim (Option-cases (accept_pass m₀).0) [
  | inl e ↦ dtp_accept_never_null conns seen m (ground arith)
  | inr (found, e) ↦ absurd (ground arith)
]
