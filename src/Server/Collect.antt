-- ===== src/Server/Collect.antt =====
-- The rest of an iteration of `server_loop` in src/server.rs, after its read loop: the packets that
-- the connections have to send, and the clients that are dropped. Logging is left out.
pub mod Kept
pub mod Round
pub mod Iteration
use nanwei_api_rust.Prelude.{
  ℕ, suc, zero, Bool, true, false, not, ◌&&◌, ◌||◌, List, [], ◌∷◌, Option, none, some,
  if◌then◌else◌, ◌==◌, bytes_eq,
}
use nanwei_api_rust.Prelude.Map.{get}
use nanwei_api_rust.Prelude.Run.{Run, ok, err, panicked, ◌>>=◌}
use nanwei_api_rust.Quiche.{Quiche, Result, success, failure, is_done}
use nanwei_api_rust.Os.{IoErrorKind, would_block, other}
use nanwei_api_rust.Outgoing.{Arrival, flush_conn}
use nanwei_api_rust.World.{ClientStatus, close, SharedStreams, update}
use nanwei_api_rust.Outgoing.{Datagram}
use nanwei_api_rust.Server.Packet.{Client, Server, Env, read_loop}

abbrev pub is_close : ClientStatus → Bool
is_close close = true
is_close _ = false

module _ {Conn : Type 0} (q : Quiche Conn) (env : Env Conn) where
  -- The closure that `retain` asks; a client without an entry is `unreachable!`.
  unfoldable pub is_kept : SharedStreams → Conn → Run Bool
  is_kept client_status c = elim (get (q.source_id c) client_status) [
    | none ↦ panicked
    | some entry ↦ ok (not (q.is_closed c) || not (is_close entry.1))
  ]

  unfoldable pub retain :
      SharedStreams → (ℕ → Conn) → List (List ℕ × Client) → Run (List (List ℕ × Client))
  retain client_status conn [] = ok []
  retain client_status conn ((k, client) ∷ clients) = do
    kept ← is_kept client_status (conn client.conn)
    rest ← retain client_status conn clients
    ok (if kept then (k, client) ∷ rest else rest)

  unfoldable pub collect : Server Conn → Run (Server Conn)
  collect s = do
    clients ← retain s.client_status s.conn s.clients
    ok (record s { clients = clients })

  unfoldable pub flush_client : ℕ → Server Conn → Client → Option (Run (Server Conn))
  flush_client n s client = elim (flush_conn q env.send_to n (s.conn client.conn) s.outbox) [
    | none ↦ none
    | some r ↦
        some (r >>= λ x. ok (record s { conn = update s.conn client.conn x.0; outbox = x.1 }))
  ]

  unfoldable pub flush : ℕ → Server Conn → List (List ℕ × Client) → Option (Run (Server Conn))
  flush n s [] = some (ok s)
  flush n s ((k, client) ∷ clients) = elim (flush_client n s client) [
    | none ↦ none
    | some (ok s') ↦ flush n s' clients
    | some err ↦ some err
    | some panicked ↦ some panicked
  ]

  unfoldable pub time_out : Server Conn → List (List ℕ × Client) → Server Conn
  time_out s [] = s
  time_out s ((k, client) ∷ clients) =
      time_out (record s { conn = update s.conn client.conn (q.on_timeout (s.conn client.conn)) })
        clients

  -- One iteration, for what `poll` brought: nothing when the timeout has passed, or what the
  -- socket gives.
  unfoldable pub receive : Server Conn → Option (List Arrival) → Run (Server Conn)
  receive s none = ok (time_out s s.clients)
  receive s (some ds) = read_loop q env s ds

  unfoldable pub iteration : ℕ → Server Conn → Option (List Arrival) → Option (Run (Server Conn))
  iteration n s events = elim (receive s events) [
    | err ↦ some err
    | panicked ↦ some panicked
    | ok s₁ ↦ elim (flush n s₁ s₁.clients) [ none ↦ none | some r ↦ some (r >>= collect) ]
  ]
