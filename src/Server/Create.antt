-- ===== src/Server/Create.antt =====
-- `DtpServer` of src/server.rs: how a server is set up before it runs.
use nanwei_api_rust.Prelude.{ℕ, ◌+◌, Bool, true, List, Option, none, some}
use nanwei_api_rust.Prelude.Int.{ℤ}
use nanwei_api_rust.Prelude.Run.{Run, ok, ◌>>=◌, ◌>>◌, expect, check, or_err, or_panic}
use nanwei_api_rust.Os.{Os}
use nanwei_api_rust.Api.{DtpServer}

-- What `listen` and `bind` have in common: the objects of a server at the references from r on.
abbrev pub set_up : {Conn : Type 0} → Os Conn → List ℕ → ℤ → Option ℕ → Option ℤ → ℕ → Run DtpServer
set_up os ip port config sockid r = do
  check os.poll_new
  local_addr ← or_err (os.parse_addr ip port)
  check (os.udp_bind local_addr)
  check os.register
  expect os.waker_new
  ok (record {
    socket = r;
    waker = r + 1;
    shared_streams = r + 2;
    config = config;
    sockid = sockid;
  })

-- `DtpServer::listen`: the server has a configuration and no number.
unfoldable pub listen : {Conn : Type 0} → Os Conn → List ℕ → ℤ → ℕ → ℕ → Run DtpServer
listen os ip port config r = set_up os ip port (some config) none r

-- `DtpServer::bind`: the server has a number and no configuration, and cannot run yet.
unfoldable pub bind : {Conn : Type 0} → Os Conn → List ℕ → ℤ → ℤ → ℕ → Run DtpServer
bind os ip port sockid r = set_up os ip port none (some sockid) r

unfoldable pub set_config : DtpServer → ℕ → DtpServer × Bool
set_config s config = (record s { config = some config }, true)

pub record ServerArgs : Type 0 where
  pub socket : ℕ
  pub config : ℕ
  pub shared_streams : ℕ

-- Panics if the server has no configuration.
unfoldable pub get_run_args : DtpServer → Run ServerArgs
get_run_args s = do
  config ← or_panic s.config
  ok (record { socket = s.socket; config = config; shared_streams = s.shared_streams })
