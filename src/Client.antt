-- ===== src/Client.antt =====
-- src/client.rs: texts, and how a client is set up.
pub mod Text
pub mod Loop
use nanwei_api_rust.Prelude.{
  ℕ, zero, suc, ◌+◌, ◌-◌, ◌/◌, ◌%◌, Bool, not, ◌||◌, List, [], ◌∷◌, ◌++◌, Option, ltb,
  if◌then◌else◌,
}
use nanwei_api_rust.Prelude.Int.{ℤ}
use nanwei_api_rust.Prelude.Run.{Run, ok, err, panicked, ◌>>=◌, ◌>>◌, expect, check, or_err}
use nanwei_api_rust.Quiche.{expect_success, Quiche, expect_success, IpAddr, v4, v6, SocketAddr}
use nanwei_api_rust.Os.{Os, IoErrorKind, would_block, other}
use nanwei_api_rust.Api.{DtpClient}

-- A digit of `{b:02x}`.
unfoldable pub hex_digit : ℕ → ℕ
hex_digit d = if ltb d 10 then b'0' + d else b'a' + (d - 10)

unfoldable pub hex_dump : List ℕ → List ℕ
unfolding hex_digit
hex_dump [] = []
hex_dump (b ∷ buf) = hex_digit (b / 16) ∷ hex_digit (b % 16) ∷ hex_dump buf

-- "0.0.0.0:0" and "[::]:0"
abbrev pub bind_addr : SocketAddr → SocketAddr
bind_addr peer = elim peer.ip [
  | v4 _ ↦ record { ip = v4 (0 ∷ 0 ∷ 0 ∷ 0 ∷ []); port = 0 }
  | v6 _ ↦ record {
    ip = v6 (0 ∷ 0 ∷ 0 ∷ 0 ∷ 0 ∷ 0 ∷ 0 ∷ 0 ∷ 0 ∷ 0 ∷ 0 ∷ 0 ∷ 0 ∷ 0 ∷ 0 ∷ 0 ∷ []);
    port = 0;
  }
]

-- The loop that sends the first packet: it tries again while the socket would block.
unfoldable pub send_first : List IoErrorKind → Run (Unit {0})
send_first [] = ok tt
send_first (would_block ∷ es) = send_first es
send_first (other ∷ es) = panicked

-- `DtpClient::connect`. The client's objects are the references from r on; the connection that comes
-- with it has sent its first packet.
unfoldable pub connect :
    {Conn : Type 0} → Quiche Conn → Os Conn → List ℕ → ℤ → ℤ → ℕ → Run (DtpClient × Conn)
connect q os ip port sockid r = do
  expect os.poll_new
  peer_addr ← or_err (os.parse_addr ip port)
  check (os.udp_bind (bind_addr peer_addr))
  expect os.register
  expect os.waker_new
  expect os.random_fill
  conn ← or_err (os.quiche_connect peer_addr)
  expect (not os.logs_info || os.local_addr)
  expect_success (q.send conn).0
  send_first os.send_errors
  ok (record { conn = r; socket = r + 1; waker = r + 2; sockid = sockid }, (q.send conn).1)
