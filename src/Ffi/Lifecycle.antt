-- ===== src/Ffi/Lifecycle.antt =====
-- The life of a socket through the calls of src/ffi.rs, in any order.
pub mod Servers
pub mod Clients
pub mod Null
use nanwei_api_rust.Prelude.{ℕ, ◌≡◌, ◌≢◌, ◌<◌, refl, Bool, List, Option}
use nanwei_api_rust.Prelude.Int.{ℤ, pos}
use nanwei_api_rust.Prelude.Run.{Run, ok}
use nanwei_api_rust.Quiche.{Quiche}
use nanwei_api_rust.Os.{Os}
use nanwei_api_rust.World.{SharedStreams, DtpConnection}
use nanwei_api_rust.Api.{DtpClient, World, initial}
use nanwei_api_rust.Api.Invariant.{Inv, initial-Inv}
use nanwei_api_rust.Ffi.Sockets.{dtp_socket, dtp_socket_close, dtp_bind, dtp_listen, dtp_connect}
use nanwei_api_rust.Ffi.Sockets.Keeps.{
  dtp_socket-Inv, dtp_socket_close-Inv, dtp_bind-Inv, dtp_listen-Inv, dtp_connect-Inv,
}
use nanwei_api_rust.Ffi.Close.{Closed, dtp_close}
use nanwei_api_rust.Ffi.Close.Branches.{dtp_close-Inv}

module _ {Conn : Type 0} (q : Quiche Conn) where
  -- One call that returns, with any arguments and any answers from the system; or the other threads,
  -- which change connections and status maps, and no table. A call of `dtp_socket` is one of the first
  -- 2^31 - 1.
  pub data Step (w : World Conn) : World Conn → Type 0 where
    socket : w.api.next_fd ≢ pos 2147483647 → Step w (dtp_socket w).1
    socket_close : (sock : ℤ) → Step w (dtp_socket_close w sock).1
    bind :
        {w' : World Conn} (os : Os Conn) (sock : ℤ) (ip : List ℕ) (port ret : ℤ)
        → dtp_bind os w sock ip port ≡ ok (ret, w')
        → Step w w'
    listen : (sock : ℤ) (config : ℕ) → Step w (dtp_listen w sock config).0
    connect :
        {w' : World Conn} (os : Os Conn) (sock : ℤ) (ip : List ℕ) (port : ℤ) (config : Option ℕ)
        (io : Option DtpConnection)
        → dtp_connect q os w sock ip port config ≡ ok (w', io)
        → Step w w'
    close :
        {w' : World Conn} (wake : ℕ → Bool) (join : DtpClient → Conn → Option Conn) (debug : Bool)
        (io : Option DtpConnection) (r : Closed Conn)
        → dtp_close q wake join debug w io ≡ ok r
        → w' ≡ r.world
        → Step w w'
    others :
        (conn : ℕ → Conn) (streams : ℕ → SharedStreams) (next_ref : ℕ)
        → Step w (record w { conn = conn; streams = streams; next_ref = next_ref })

  pub data Reach (w : World Conn) : World Conn → Type 0 where
    here : Reach w w
    next : {u v : World Conn} → Reach w u → Step u v → Reach w v

  Step-Inv : {w w' : World Conn} → Step w w' → Inv w.api → Inv w'.api
  Step-Inv {w} (socket h) i = dtp_socket-Inv w h i
  Step-Inv {w} (socket_close sock) i = dtp_socket_close-Inv w sock i
  Step-Inv {w} {w'} (bind os sock ip port ret e) i = dtp_bind-Inv os w w' sock ip port ret i e
  Step-Inv {w} (listen sock config) i = dtp_listen-Inv w sock config i
  Step-Inv {w} {w'} (connect os sock ip port config io e) i =
      dtp_connect-Inv q os w w' sock ip port config io i e
  Step-Inv {w} {w'} (close wake join debug io r e x) i =
      rw x (dtp_close-Inv q wake join debug w io r i e)
  Step-Inv (others conn streams next_ref) i = i

  Reach-keeps : {w w' : World Conn} → Inv w.api → Reach w w' → Inv w'.api
  Reach-keeps i here = i
  Reach-keeps i (next r s) = Step-Inv s (Reach-keeps i r)

  -- After any sequence of calls that return, with steps of the other threads between them, the tables
  -- are consistent: numbers with an entry were given out; a number in use by a client or a server has
  -- an entry; a server is bound or running, not both; a running server has its configuration, its
  -- shared state and its waker.
  pub Reach-Inv : (w w' : World Conn) → w.api ≡ initial → Reach w w' → Inv w'.api
  Reach-Inv w w' e r = Reach-keeps (rw e initial-Inv) r
