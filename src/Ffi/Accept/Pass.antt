-- ===== src/Ffi/Accept/Pass.antt =====
-- Which connections `dtp_accept` hands out.
use nanwei_api_rust.Prelude.{
  All, ℕ, ◌≡◌, ◌≢◌, refl, Bool, true, false, inl, inr, List, [], ◌∷◌, Option, none, some, arith,
  Bool-cases, Option-cases, ◌==◌, bytes_eq, bytes_beq, bytes_beq_iff, bytes_beq_self,
}
use mathlib.Core.List.{Memᴰ}
use nanwei_api_rust.Prelude.Map.{get, IsUnique}
use nanwei_api_rust.World.{ClientStatus, connected, accepted, SharedStreams, DtpConnection}
use nanwei_api_rust.Ffi.Sockets.{DtpServerConns}
use nanwei_api_rust.Ffi.Accept.{
  is_connected, accept_pass, returned, handle_of, accept_loop, dtp_accept,
}

is_connected-eq : (s : ClientStatus) → is_connected s ≡ true → s ≡ connected
is_connected-eq s h = ground arith

-- An entry after a pass that accepted the connection with the given id.
abbrev pub accepted_entry : Bool → ℕ → Option (ℕ × ClientStatus) → Option (ℕ × ClientStatus)
accepted_entry true c old = some (c, accepted)
accepted_entry false c old = old

pub get-accept_pass :
    (m : SharedStreams) (id k : List ℕ) (c : ℕ)
    → IsUnique m
    → (accept_pass m).0 ≡ some (id, c)
    → (get id m ≡ some (c, connected))
      × (get k (accept_pass m).1 ≡ accepted_entry (id == k) c (get k m))
unfolding accept_pass get
get-accept_pass [] id k c u h = cc
get-accept_pass ((scid, (conn, status)) ∷ m) id k c u h = elim (Bool-cases (is_connected status)) [
  | inl t ↦
      let e : (scid ≡ id) × (conn ≡ c) = ground arith in
      (
        ground (arith, bytes_beq_iff scid id, is_connected-eq status t),
        ground (arith, bytes_beq_iff scid id, bytes_beq_iff scid k, bytes_beq_iff id k),
      )
  | inr t ↦
      let rest : (accept_pass m).0 ≡ some (id, c) = ground arith in
      let (found, after) = get-accept_pass m id k c u.1 rest in
      let other : bytes_beq scid id ≡ false = ground (arith, bytes_beq_iff scid id, u.0) in
      (
        ground arith,
        ground (arith, bytes_beq_iff scid k, bytes_beq_iff id k, bytes_beq_iff scid id),
      )
]

pub accept_pass_idle : (m : SharedStreams) → (accept_pass m).0 ≡ none → (accept_pass m).1 ≡ m
unfolding accept_pass
accept_pass_idle [] h = refl
accept_pass_idle ((scid, (conn, status)) ∷ m) h = ground (arith, accept_pass_idle m)

pub accept_pass_unfound :
    (m : SharedStreams) (k : List ℕ) (entry : ℕ × ClientStatus)
    → (accept_pass m).0 ≡ none
    → get k m ≡ some entry
    → is_connected entry.1 ≡ false
unfolding accept_pass get
accept_pass_unfound [] k entry h g = cc
accept_pass_unfound ((scid, (conn, status)) ∷ m) k entry h g =
    ground (arith, accept_pass_unfound m k entry)

-- A pass over a map with distinct keys that hands out a connection hands out one that was connected and
-- marks it as accepted. Every other entry stays as it is.
pub accept_pass_found :
    (m : SharedStreams) (id : List ℕ) (c : ℕ)
    → IsUnique m
    → (accept_pass m).0 ≡ some (id, c)
    → (get id m ≡ some (c, connected))
      × ((k : List ℕ) → get k (accept_pass m).1 ≡ accepted_entry (id == k) c (get k m))
accept_pass_found m id c u h =
    ((get-accept_pass m id id c u h).0, λ k. (get-accept_pass m id k c u h).1)

get-accept_pass_absent :
    (m : SharedStreams) (k : List ℕ) → get k m ≡ none → get k (accept_pass m).1 ≡ none
unfolding accept_pass get
get-accept_pass_absent [] k h = refl
get-accept_pass_absent ((scid, (conn, status)) ∷ m) k h = ground (arith, get-accept_pass_absent m k)

pub accept_pass-IsUnique : (m : SharedStreams) → IsUnique m → IsUnique (accept_pass m).1
unfolding accept_pass
accept_pass-IsUnique [] u = tt
accept_pass-IsUnique ((scid, (conn, status)) ∷ m) u = elim (Bool-cases (is_connected status)) [
  | inl t ↦ rw t u
  | inr t ↦ rw t (get-accept_pass_absent m scid u.0, accept_pass-IsUnique m u.1)
]

-- A call that does not block and returns null has found no connected client, and has changed nothing.
pub dtp_accept_null :
    (conns : DtpServerConns) (m m' : SharedStreams) (k : List ℕ) (entry : ℕ × ClientStatus)
    → dtp_accept (some conns) false (m ∷ []) ≡ returned none (some m')
    → get k m ≡ some entry
    → (m' ≡ m) × (entry.1 ≢ connected)
unfolding dtp_accept accept_loop
dtp_accept_null conns m m' k entry h g = elim (Option-cases (accept_pass m).0) [
  | inl e ↦
      let n = accept_pass_unfound m k entry e g in
      (ground (arith, accept_pass_idle m e), λ c. ground (arith, n))
  | inr (found, e) ↦ absurd (ground arith)
]

-- What a pass over the map m did, if it handed out the handle and left the map m'.
abbrev pub HandsOut : DtpServerConns → SharedStreams → DtpConnection → SharedStreams → Type 0
HandsOut conns m io m' =
    (id : List ℕ) × (c : ℕ) × (io ≡ handle_of conns (id, c))
    × (get id m ≡ some (c, connected))
    × ((k : List ℕ) → get k m' ≡ accepted_entry (id == k) c (get k m))
    × ((d : ℕ) → (accept_pass m').0 ≢ some (id, d))

pass-HandsOut :
    (conns : DtpServerConns) (m : SharedStreams) (found : List ℕ × ℕ)
    → IsUnique m
    → (accept_pass m).0 ≡ some found
    → HandsOut conns m (handle_of conns found) (accept_pass m).1
pass-HandsOut conns m (id, c) u h =
    let (was, after) = accept_pass_found m id c u h in
    (
      id,
      c,
      refl,
      was,
      after,
      λ d again.
          let twice =
            (accept_pass_found (accept_pass m).1 id d (accept_pass-IsUnique m u) again).0 in
          ground (arith, after id, bytes_beq_self id, twice),
    )

-- The handle that a call returns, blocking or not, was handed out by one of its passes: it stands for a
-- connection that was connected in the map that the pass saw and is now accepted, it shares the state
-- and the waker of the server, and every other entry is as it was. A pass right after cannot hand out
-- the same connection.
pub dtp_accept-HandsOut :
    (conns : DtpServerConns) (is_block : Bool) (seen : List SharedStreams) (m' : SharedStreams)
    (io : DtpConnection)
    → All IsUnique seen
    → dtp_accept (some conns) is_block seen ≡ returned (some io) (some m')
    → (m : SharedStreams) × Memᴰ m seen × HandsOut conns m io m'
unfolding dtp_accept accept_loop
dtp_accept-HandsOut conns is_block [] m' io u h = absurd (ground arith)
dtp_accept-HandsOut conns is_block (m ∷ seen) m' io u h = elim (Option-cases (accept_pass m).0) [
  | inl e ↦ elim (Bool-cases is_block) [
    | inl b ↦
        let (n, at, out) = dtp_accept-HandsOut conns is_block seen m' io u.1 (ground arith) in
        (n, Memᴰ.tail at, out)
    | inr b ↦ absurd (ground arith)
  ]
  | inr (found, e) ↦
      let (x, y) : (io ≡ handle_of conns found) × (m' ≡ (accept_pass m).1) = ground arith in
      (m, Memᴰ.head refl, rw (x, y) (pass-HandsOut conns m found u.0 e))
]
