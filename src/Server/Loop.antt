-- ===== src/Server/Loop.antt =====
-- `server_loop` of src/server.rs as a whole, and `DtpServer::run`. Between two turns the loop waits in
-- `poll`; what the wait brings is an argument, and a loop that has used it up is still waiting. What
-- other threads do meanwhile is left to `System`.
pub mod Timeout
pub mod Runs
use nanwei_api_rust.Prelude.{ℕ, List, [], ◌∷◌, Option, none, some, min}
use nanwei_api_rust.Prelude.Run.{Run, ok, err, panicked}
use nanwei_api_rust.Quiche.{Quiche}
use nanwei_api_rust.Client.Loop.{Event, poll_failed, timed_out, packets}
use nanwei_api_rust.Api.{DtpServer}
use nanwei_api_rust.Server.Create.{get_run_args}
use nanwei_api_rust.Server.Packet.{Client, Server, Env}
use nanwei_api_rust.Server.Collect.{iteration}

-- The shorter of two timeouts, where `none` is no timeout.
abbrev pub sooner : Option ℕ → Option ℕ → Option ℕ
sooner none b = b
sooner (some a) none = some a
sooner (some a) (some b) = some (min a b)

module _ {Conn : Type 0} (q : Quiche Conn) (env : Env Conn) where
  -- The timeout for `poll`.
  unfoldable pub poll_timeout : (ℕ → Conn) → List (List ℕ × Client) → Option ℕ
  poll_timeout conn [] = none
  poll_timeout conn ((k, client) ∷ clients) =
      sooner (q.timeout (conn client.conn)) (poll_timeout conn clients)

  unfoldable pub turn : ℕ → Server Conn → Event → Option (Run (Server Conn))
  turn n s poll_failed = some panicked
  turn n s timed_out = iteration q env n s none
  turn n s (packets arrivals) = iteration q env n s (some arrivals)

  unfoldable pub server_loop : ℕ → Server Conn → List Event → Option (Run (Server Conn))
  server_loop n s [] = some (ok s)
  server_loop n s (event ∷ events) = elim (turn n s event) [
    | none ↦ none
    | some err ↦ some err
    | some panicked ↦ some panicked
    | some (ok s') ↦ server_loop n s' events
  ]

  -- The server's thread; a server without a configuration panics.
  unfoldable pub run : ℕ → DtpServer → Server Conn → List Event → Option (Run (Server Conn))
  run n server s events = elim (get_run_args server) [
    | err ↦ some err
    | panicked ↦ some panicked
    | ok args ↦ server_loop n s events
  ]
