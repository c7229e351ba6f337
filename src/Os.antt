-- ===== src/Os.antt =====
-- What the program asks of the operating system and of the QUIC library while it sets up a client or
-- a server, as the answers that it gets: `true` or `some` where a call succeeds.
use nanwei_api_rust.Prelude.{ℕ, Bool, List, Option}
use nanwei_api_rust.Prelude.Int.{ℤ}
use nanwei_api_rust.Quiche.{SocketAddr}

pub data IoErrorKind : Type 0 where
  would_block : IoErrorKind
  other : IoErrorKind

pub record Os (Conn : Type 0) : Type 0 where
  pub poll_new : Bool
  -- The text `ip:port`, read as an address.
  pub parse_addr : List ℕ → ℤ → Option SocketAddr
  pub udp_bind : SocketAddr → Bool
  pub register : Bool
  pub waker_new : Bool
  pub random_fill : Bool
  pub quiche_connect : SocketAddr → Option Conn
  -- Whether messages of that level are logged, and whether a socket has a local address to print.
  pub logs_info : Bool
  pub local_addr : Bool
  -- The errors of `send_to` before it takes the first packet.
  pub send_errors : List IoErrorKind
