-- ===== src/Main/Setup.antt =====
-- What `main` of src/main.rs does before its threads talk: it starts the server, and the tasks of the
-- clients get their handles. The configurations are references.
pub mod Tables
pub mod Numbers
use nanwei_api_rust.Prelude.{ℕ, ◌+◌, ◌≡◌, true, nat_eq, List, [], ◌∷◌, Option, none, some}
use nanwei_api_rust.Prelude.Int.{ℤ, pos}
use nanwei_api_rust.Prelude.Run.{Run, ok, ◌>>=◌}
use nanwei_api_rust.Quiche.{Quiche}
use nanwei_api_rust.Os.{Os}
use nanwei_api_rust.World.{DtpConnection, update}
use nanwei_api_rust.Api.{World, has_client}
use nanwei_api_rust.Ffi.Sockets.{DtpServerConns, dtp_socket, dtp_bind, dtp_listen, dtp_connect}

-- "127.0.0.1"
abbrev pub localhost : List ℕ
localhost = b'1' ∷ b'2' ∷ b'7' ∷ b'.' ∷ b'0' ∷ b'.' ∷ b'0' ∷ b'.' ∷ b'1' ∷ []

-- The first argument, if there is one, and what `parse::<u32>` makes of it.
abbrev pub client_num : Option (Option ℕ) → ℕ
client_num none = 500
client_num (some none) = 500
client_num (some (some n)) = n

module _ {Conn : Type 0} where
  -- The server's number and what `dtp_listen` returns.
  unfoldable pub listen_on :
      Os Conn → World Conn → (config : ℕ) → Run (World Conn × (ℤ × Option DtpServerConns))
  listen_on os w config = do
    let (sock, w₁) = dtp_socket w
    r ← dtp_bind os w₁ sock localhost (pos 4433)
    let (w₂, conns) = dtp_listen r.1 sock config
    ok (w₂, (sock, conns))

-- A client's task until it has a handle: it has been spawned, it has the number of a socket, or it has
-- what `dtp_connect` returned for that socket.
pub data Task : Type 0 where
  spawned : Task
  opened : ℤ → Task
  started : ℤ → Option DtpConnection → Task

pub record Tasks (Conn : Type 0) : Type 0 where
  pub world : World Conn
  pub tasks : ℕ → Task

-- What the rest of the program does to the tables while the tasks start: it may take clients out.
pub record LeavesTables {Conn : Type 0} (w w' : World Conn) : Type 0 where
  pub next : w'.api.next_fd ≡ w.api.next_fd
  pub entries : w'.api.sock_map ≡ w.api.sock_map
  pub clients : (k : ℤ) → has_client w'.api k ≡ true → has_client w.api k ≡ true

-- The tasks run at the same time; each call is one step, since it holds the lock on `DTP_API_MAP`.
pub data TaskStep {Conn : Type 0} (q : Quiche Conn) (s : Tasks Conn) : Tasks Conn → Type 0 where
  opens :
      (i : ℕ)
      → s.tasks i ≡ spawned
      → TaskStep q s (record {
        world = (dtp_socket s.world).1;
        tasks = update s.tasks i (opened (dtp_socket s.world).0);
      })
  connects :
      (i : ℕ) (sock : ℤ) (os : Os Conn) (config : Option ℕ) (r : World Conn × Option DtpConnection)
      → s.tasks i ≡ opened sock
      → dtp_connect q os s.world sock localhost (pos 4433) config ≡ ok r
      → TaskStep q s (record { world = r.0; tasks = update s.tasks i (started sock r.1) })
  others : (w : World Conn) → LeavesTables s.world w → TaskStep q s (record s { world = w })

-- How many sockets the tasks have opened after a step.
abbrev pub sockets_opened :
    {Conn : Type 0} {q : Quiche Conn} {s s' : Tasks Conn} → TaskStep q s s' → ℕ → ℕ
sockets_opened (opens i e) n = 1 + n
sockets_opened s n = n

-- Steps of the tasks, in any order, and how many sockets they open.
pub data TaskRun {Conn : Type 0} (q : Quiche Conn) (s : Tasks Conn) : ℕ → Tasks Conn → Type 0 where
  begun : TaskRun q s 0 s
  goes_on :
      {n : ℕ} {a b : Tasks Conn}
      → TaskRun q s n a
      → (t : TaskStep q a b) → TaskRun q s (sockets_opened t n) b

abbrev pub all_spawned : {Conn : Type 0} → World Conn → Tasks Conn
all_spawned w = record { world = w; tasks = λ i. spawned }
