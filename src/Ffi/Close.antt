-- ===== src/Ffi/Close.antt =====
-- `dtp_close` of src/ffi.rs, and the two functions beside it that always refuse. The function takes
-- the lock on a connection anew for each call; here the branch that closes a client, with its wait for
-- the client's thread, is one step.
pub mod Branches
use nanwei_api_rust.Prelude.{
  ℕ, Bool, true, false, not, ◌||◌, List, [], ◌∷◌, Option, none, some, is_some, if◌then◌else◌, ◌==◌,
  nat_eq, bytes_eq,
}
use nanwei_api_rust.Prelude.Int.{ℤ, pos, negsuc, int_eq}
use nanwei_api_rust.Prelude.Map.{get, insert, remove}
use nanwei_api_rust.Prelude.Run.{Run, ok, err, panicked, ◌>>=◌, ◌>>◌, expect, or_panic}
use nanwei_api_rust.Quiche.{Quiche, expect_success}
use nanwei_api_rust.World.{ClientStatus, close, SharedStreams, DtpConnection, update}
use nanwei_api_rust.Api.{DtpClient, World}
use nanwei_api_rust.Ffi.Sockets.{DtpServerConns}

-- The result, whether the handle has been freed, the waker that was woken, and the world.
pub record Closed (Conn : Type 0) : Type 0 where
  pub ret : ℤ
  pub freed : Bool
  pub woken : Option ℕ
  pub world : World Conn

-- `*status = ClientStatus::Close`, if there is an entry.
unfoldable pub mark_close : List ℕ → SharedStreams → SharedStreams
mark_close id m = elim (get id m) [ none ↦ m | some entry ↦ insert id (entry.0, close) m ]

-- `wake` is whether waking a waker succeeds; `join` waits for a client's thread, which works on the
-- connection until it is closed, and gives `none` if the thread panicked; `debug` is whether messages
-- of that level are logged, since only then their arguments are computed.
module _ {Conn : Type 0} (q : Quiche Conn) (wake : ℕ → Bool) (join : DtpClient → Conn → Option Conn)
    (debug : Bool) where
  unfoldable pub close_established : World Conn → DtpConnection → Run (Closed Conn)
  close_established w io = do
    let r = q.close (w.conn io.conn) true 0 []
    expect_success r.0
    expect (wake io.waker)
    sock ← or_panic io.sockid
    client ← or_panic (get sock w.api.client_handles)
    c ← or_panic (join client r.1)
    ok (record {
      ret = pos 1;
      freed = true;
      woken = some io.waker;
      world = record w {
        conn = update w.conn io.conn c;
        api = record (w.api) { client_handles = remove sock w.api.client_handles };
      };
    })

  unfoldable pub close_client : World Conn → DtpConnection → Run (Closed Conn)
  close_client w io =
      if q.is_closed (w.conn io.conn)
      then ok (record { ret = pos 1; freed = true; woken = none; world = w })
      else (if q.is_established (w.conn io.conn)
          then close_established w io
          else ok (record { ret = negsuc 0; freed = false; woken = none; world = w }))

  unfoldable pub close_server : World Conn → DtpConnection → Run (Closed Conn)
  close_server w io =
      if not (q.is_closed (w.conn io.conn))
      then (do
        expect (not debug || is_some io.sockid)
        ok (record { ret = negsuc 0; freed = false; woken = none; world = w }))
      else (do
        conn_id ← or_panic io.conn_id
        pconns ← or_panic io.pconns
        ok (record {
          ret = pos 1;
          freed = true;
          woken = none;
          world = record w {
            streams = update w.streams pconns (mark_close conn_id (w.streams pconns));
          };
        }))

  unfoldable pub dtp_close : World Conn → Option DtpConnection → Run (Closed Conn)
  dtp_close w none = ok (record { ret = negsuc 0; freed = false; woken = none; world = w })
  dtp_close w (some io) = if not io.is_server_side then close_client w io else close_server w io

-- Switched off.
unfoldable pub dtp_close_connections : Option DtpServerConns → ℤ
dtp_close_connections conns = negsuc 0

unfoldable pub dtp_get_conns_listenfd : Option DtpServerConns → ℤ
dtp_get_conns_listenfd conns = negsuc 0

unfoldable pub dtp_get_connio_listenfd : Option DtpConnection → ℤ
dtp_get_connio_listenfd conn_io = negsuc 0
