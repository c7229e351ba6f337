-- ===== src/Ffi/Accept.antt =====
-- `dtp_accept` of src/ffi.rs. A pass over `client_status` holds its lock. Between two passes the
-- function sleeps and the server goes on, so a blocking call sees one map after another: they are the
-- argument `seen`, and a call that has used them up is still waiting.
pub mod Pass
use nanwei_api_rust.Prelude.{ℕ, Bool, true, false, List, [], ◌∷◌, Option, none, some, if◌then◌else◌}
use nanwei_api_rust.World.{
  ClientStatus, not_connected, connected, accepted, close, wait, SharedStreams, DtpConnection,
}
use nanwei_api_rust.Ffi.Sockets.{DtpServerConns}

abbrev pub is_connected : ClientStatus → Bool
is_connected connected = true
is_connected _ = false

abbrev prepend :
    List ℕ × (ℕ × ClientStatus)
    → Option (List ℕ × ℕ) × SharedStreams
    → Option (List ℕ × ℕ) × SharedStreams
prepend entry (found, m) = (found, entry ∷ m)

-- One pass: the first connected client is marked as accepted, and its id and connection returned.
unfoldable pub accept_pass : SharedStreams → Option (List ℕ × ℕ) × SharedStreams
accept_pass [] = (none, [])
accept_pass ((scid, (conn, status)) ∷ m) =
    if is_connected status
    then (some (scid, conn), (scid, (conn, accepted)) ∷ m)
    else prepend (scid, (conn, status)) (accept_pass m)

pub data Accepting : Type 0 where
  -- The sleep before the next pass.
  waiting : Accepting
  -- The pointer that is returned, and the map that the last pass left, if there was one.
  returned : Option DtpConnection → Option SharedStreams → Accepting

unfoldable pub handle_of : DtpServerConns → List ℕ × ℕ → DtpConnection
handle_of conns (scid, conn) = record {
  is_server_side = true;
  conn = conn;
  waker = conns.waker;
  sockid = none;
  pconns = some conns.streams;
  conn_id = some scid;
}

unfoldable pub accept_loop : DtpServerConns → Bool → List SharedStreams → Accepting
accept_loop conns is_block [] = waiting
accept_loop conns is_block (m ∷ seen) =
    let next = accept_loop conns is_block seen in
    elim (accept_pass m).0 [
      | some found ↦ returned (some (handle_of conns found)) (some (accept_pass m).1)
      | none ↦ if is_block then next else returned none (some (accept_pass m).1)
    ]

unfoldable pub dtp_accept : Option DtpServerConns → Bool → List SharedStreams → Accepting
dtp_accept none is_block seen = returned none none
dtp_accept (some conns) is_block seen = accept_loop conns is_block seen
