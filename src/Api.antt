-- ===== src/Api.antt =====
-- src/lib.rs: `DtpApi`, the tables by which a C program's numbers are turned into sockets, clients and
-- servers, and the objects that stand in them. `World` is what the threads of the program share: an
-- `Arc<Mutex<_>>` is a number, and `World` says what it refers to.
pub mod Invariant
use nanwei_api_rust.Prelude.{
  ℕ, zero, suc, ◌+◌, Bool, true, false, ◌||◌, List, [], ◌∷◌, Option, none, some, is_some, ◌==◌,
  nat_eq, nat_beq, if◌then◌else◌,
}
use nanwei_api_rust.Prelude.Int.{ℤ, pos, negsuc, int_eq}
use nanwei_api_rust.Prelude.Map.{get, insert, remove, contains_key}
use nanwei_api_rust.World.{SharedStreams}

-- `DtpClient` of src/client.rs, without its peer's address, which is only kept.
pub record DtpClient : Type 0 where
  pub conn : ℕ
  pub socket : ℕ
  pub waker : ℕ
  pub sockid : ℤ

-- `DtpServer` of src/server.rs as it is before it runs: it has no clients yet.
pub record DtpServer : Type 0 where
  pub socket : ℕ
  pub waker : ℕ
  pub shared_streams : ℕ
  pub config : Option ℕ
  pub sockid : Option ℤ

-- A `JoinHandle` is the object that its thread runs.
pub record DtpApi : Type 0 where
  pub sock_map : List (ℤ × Option ℕ)
  pub client_map : List (ℤ × DtpClient)
  pub server_map : List (ℤ × DtpServer)
  pub server_waker_map : List (ℤ × ℕ)
  pub server_shared_map : List (ℤ × ℕ)
  pub server_handles : List (ℤ × DtpServer)
  pub client_handles : List (ℤ × DtpClient)
  pub next_fd : ℤ

-- `DtpApi::default()`
abbrev pub initial : DtpApi
initial = record {
  sock_map = [];
  client_map = [];
  server_map = [];
  server_waker_map = [];
  server_shared_map = [];
  server_handles = [];
  client_handles = [];
  next_fd = pos 0;
}

-- `next_fd += 1` on an `i32`, as a release build does it.
abbrev pub next_i32 : ℤ → ℤ
next_i32 (pos n) = if nat_beq n 2147483647 then negsuc 2147483647 else pos (n + 1)
next_i32 (negsuc zero) = pos 0
next_i32 (negsuc (suc n)) = negsuc n

unfoldable pub create_udp_fd : DtpApi → DtpApi × ℤ
create_udp_fd a = (
  record a { sock_map = insert a.next_fd none a.sock_map; next_fd = next_i32 a.next_fd },
  a.next_fd,
)

abbrev pub has_server : DtpApi → ℤ → Bool
has_server a sock = is_some (get sock a.server_map) || is_some (get sock a.server_handles)

abbrev pub has_running_server : DtpApi → ℤ → Bool
has_running_server a sock = is_some (get sock a.server_shared_map)

abbrev pub has_client : DtpApi → ℤ → Bool
has_client a sock = is_some (get sock a.client_map) || is_some (get sock a.client_handles)

abbrev is_bound : Option (Option ℕ) → Bool
is_bound (some socket) = is_some socket
is_bound none = false

abbrev pub has_sock : DtpApi → ℤ → Bool
has_sock a sock = is_bound (get sock a.sock_map)

abbrev pub has_sock_entry : DtpApi → ℤ → Bool
has_sock_entry a sock = is_some (get sock a.sock_map)

pub record World (Conn : Type 0) : Type 0 where
  pub conn : ℕ → Conn
  pub streams : ℕ → SharedStreams
  pub api : DtpApi
  -- References from here on are not in use.
  pub next_ref : ℕ
