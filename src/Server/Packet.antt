-- ===== src/Server/Packet.antt =====
-- The read loop of `server_loop` in src/server.rs: what one datagram does. Logging is left out. The
-- QUIC library's functions, the signature of the connection id and the answers of the socket are
-- fields of `Env`; what `send_to` answers may depend on all that was sent before.
pub mod Tracked
pub mod Loop
pub mod Changes
pub mod Grants
pub mod NewClients
use nanwei_api_rust.Prelude.{
  ℕ, ◌+◌, Bool, true, false, not, ◌&&◌, ◌||◌, List, [], ◌∷◌, Option, none, some, length, take, leb,
  ◌==◌, nat_eq, bytes_eq, if◌then◌else◌,
}
use nanwei_api_rust.Prelude.Map.{get, insert, contains_key}
use nanwei_api_rust.Prelude.Run.{Run, ok, err, panicked, ◌>>=◌, ◌>>◌, expect, or_panic}
use nanwei_api_rust.Quiche.{
  Quiche, Result, success, failure, SocketAddr, PacketType, initial, Header,
}
use nanwei_api_rust.Outgoing.{Datagram, Arrival, arrived, failed}
use nanwei_api_rust.Os.{IoErrorKind, would_block, other}
use nanwei_api_rust.World.{ClientStatus, connected, SharedStreams, update}
use nanwei_api_rust.Server.Token.{mint_token, validate_token}
use nanwei_api_rust.Server.Partial.{Partials, handle_all_writable}

pub record Client : Type 0 where
  pub conn : ℕ
  pub partial_responses : Partials

-- What the loop works on: its clients, the status map that it shares with the API, the connections,
-- and the datagrams that it has sent, newest first.
pub record Server (Conn : Type 0) : Type 0 where
  pub clients : List (List ℕ × Client)
  pub client_status : SharedStreams
  pub conn : ℕ → Conn
  pub next_conn : ℕ
  pub outbox : List Datagram

pub record Env (Conn : Type 0) : Type 0 where
  pub max_conn_id_len : ℕ
  pub from_slice : List ℕ → Result Header
  pub sign : List ℕ → List ℕ
  pub version_is_supported : ℕ → Bool
  pub negotiate_version : List ℕ → List ℕ → Result (List ℕ)
  -- The two ids of the packet, the new id, the token and the version.
  pub retry : List ℕ → List ℕ → List ℕ → List ℕ → ℕ → Result (List ℕ)
  -- The id, the original destination id and the peer.
  pub accept : List ℕ → List ℕ → SocketAddr → Result Conn
  -- Whether error messages are logged; only then their arguments are computed.
  pub logs_errors : Bool
  pub send_to : List Datagram → Datagram → Option IoErrorKind

-- `continue 'read` and the end of the body, or `break`.
pub data Control : Type 0 where
  continue_read break_read : Control

-- The value of the long `let client = if …`.
pub data Admission (Conn : Type 0) : Type 0 where
  turned_away : Control → Server Conn → Admission Conn
  admitted : List ℕ → Server Conn → Admission Conn

abbrev pub or_unwrap {ℓ} : {A : Type ℓ} → Result A → Run A
or_unwrap (success a) = ok a
or_unwrap (failure e) = panicked

abbrev pub is_initial : PacketType → Bool
is_initial initial = true
is_initial _ = false

-- A mutex as the thread sees it. One that locks a mutex which it holds does not go on.
pub data Guard : Type 0 where
  free held : Guard

abbrev pub lock : Guard → Run Guard
lock free = ok held
lock held = panicked

module _ {Conn : Type 0} (q : Quiche Conn) (env : Env Conn) where
  -- An answer without a connection.
  unfoldable pub send_away : Server Conn → Datagram → Run (Admission Conn)
  send_away s d = elim (env.send_to s.outbox d) [
    | none ↦ ok (turned_away continue_read (record s { outbox = d ∷ s.outbox }))
    | some would_block ↦ ok (turned_away break_read s)
    | some other ↦ panicked
  ]

  unfoldable pub add_client : Server Conn → List ℕ → Conn → Server Conn
  add_client s scid c = record s {
    clients = insert scid (record { conn = s.next_conn; partial_responses = [] }) s.clients;
    client_status = insert scid (s.next_conn, connected) s.client_status;
    conn = update s.conn s.next_conn c;
    next_conn = s.next_conn + 1;
  }

  -- After the check of the token.
  unfoldable pub admit :
      Server Conn → SocketAddr → Header → List ℕ → Option (List ℕ) → Run (Admission Conn)
  admit s from hdr conn_id none = ok (turned_away continue_read s)
  admit s from hdr conn_id (some odcid) =
      if not (length conn_id == length hdr.dcid) then ok (turned_away continue_read s) else (do
        conn ← or_unwrap (env.accept hdr.dcid odcid from)
        ok (admitted hdr.dcid (add_client s hdr.dcid conn)))

  unfoldable pub check_token :
      Server Conn → SocketAddr → Header → List ℕ → List ℕ → Run (Admission Conn)
  check_token s from hdr conn_id [] = do
    packet ← or_unwrap (env.retry hdr.scid hdr.dcid conn_id (mint_token hdr from) hdr.version)
    send_away s (packet, from)
  check_token s from hdr conn_id (b ∷ token) =
      admit s from hdr conn_id (validate_token from (b ∷ token))

  -- A packet of no known connection.
  unfoldable pub new_client : Server Conn → SocketAddr → Header → List ℕ → Run (Admission Conn)
  new_client s from hdr conn_id =
      if not (is_initial hdr.ty)
      then ok (turned_away continue_read s)
      else (if not (env.version_is_supported hdr.version)
          then (do
            packet ← or_unwrap (env.negotiate_version hdr.scid hdr.dcid)
            send_away s (packet, from))
          else (do token ← or_panic hdr.token; check_token s from hdr conn_id token))

  unfoldable pub find_client : Server Conn → SocketAddr → Header → List ℕ → Run (Admission Conn)
  find_client s from hdr conn_id =
      if not (contains_key hdr.dcid s.clients) && not (contains_key conn_id s.clients)
      then new_client s from hdr conn_id
      else ok (admitted (if contains_key hdr.dcid s.clients then hdr.dcid else conn_id) s)

  -- The client's connection and its partial answers after its writable streams have been served.
  unfoldable pub serve : Server Conn → List ℕ → Client → Conn → Run (Server Conn)
  serve s key client c =
      if q.is_in_early_data c || q.is_established c
      then (do
        r ← handle_all_writable q c client.partial_responses (q.writable c)
        ok (record s {
          clients = insert key (record client { partial_responses = r.1 }) s.clients;
          conn = update s.conn client.conn r.0;
        }))
      else ok (record s { conn = update s.conn client.conn c })

  -- The lock on the connection that `recv` takes is held until the arms of the `match` are done; the
  -- message about a failed `recv` locks the connection again.
  unfoldable pub feed : Server Conn → Datagram → List ℕ → Client → Run (Server Conn)
  feed s (packet, from) key client = do
    guard ← lock free
    let r = q.recv (s.conn client.conn) packet from
    elim r.0 [
      | success read ↦ serve s key client r.1
      | failure e ↦ (do
        guard' ← (if env.logs_errors then lock guard else ok guard)
        ok (record s { conn = update s.conn client.conn r.1 }))
    ]

  unfoldable pub process : Datagram → Admission Conn → Run (Control × Server Conn)
  process d (turned_away control s) = ok (control, s)
  process d (admitted key s) = do
    client ← or_panic (get key s.clients)
    s' ← feed s d key client
    ok (continue_read, s')

  unfoldable pub read_header : Server Conn → Datagram → Header → Run (Control × Server Conn)
  read_header s d hdr = do
    expect (leb env.max_conn_id_len (length (env.sign hdr.dcid)))
    client ← find_client s d.1 hdr (take env.max_conn_id_len (env.sign hdr.dcid))
    process d client

  unfoldable pub read_packet : Server Conn → Datagram → Run (Control × Server Conn)
  read_packet s d = elim (env.from_slice d.0) [
    | success hdr ↦ read_header s d hdr
    | failure e ↦ ok (continue_read, s)
  ]

  -- What the socket gives, until it would block or an answer would block; the end of the list is the
  -- first time that the socket would block.
  unfoldable pub read_loop : Server Conn → List Arrival → Run (Server Conn)
  read_loop s [] = ok s
  read_loop s (failed would_block ∷ arrivals) = ok s
  read_loop s (failed other ∷ arrivals) = panicked
  read_loop s (arrived d ∷ arrivals) = read_packet s d >>= λ r. elim r.0 [
    | continue_read ↦ read_loop r.1 arrivals
    | break_read ↦ ok r.1
  ]
