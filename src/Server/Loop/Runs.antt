-- ===== src/Server/Loop/Runs.antt =====
-- The turns of `server_loop` of src/server.rs.
use nanwei_api_rust.Prelude.{ℕ, ◌+◌, ◌<◌, ◌≤◌, ◌≡◌, refl, List, [], ◌∷◌, Option, none, some, arith}
use nanwei_api_rust.Prelude.Run.{Run, ok, err, panicked, Always}
use nanwei_api_rust.Quiche.{Quiche, IdLaws, SocketAddr, success}
use nanwei_api_rust.Outgoing.{Datagram}
use nanwei_api_rust.Client.Loop.{Event, poll_failed, timed_out, packets}
use nanwei_api_rust.Server.Packet.{Server, Env}
use nanwei_api_rust.Server.Packet.Tracked.{Tracked}
use nanwei_api_rust.Server.Collect.Iteration.{iteration_ends}
use nanwei_api_rust.Server.Loop.{turn, server_loop}

module _ {Conn : Type 0} (q : Quiche Conn) (ids : IdLaws q) (env : Env Conn)
    (accepts : (scid odcid : List ℕ) (from : SocketAddr) (c : Conn)
      → env.accept scid odcid from ≡ success c
      → q.source_id c ≡ scid)
    (pending : Conn → ℕ)
    (sends : (c : Conn) (d : Datagram)
      → (q.send c).0 ≡ success d
      → pending (q.send c).1 < pending c) where
  abbrev Ends : (ℕ → Option (Run (Server Conn))) → Type 0
  Ends f =
      (n : ℕ) × (r : Run (Server Conn)) × (((m : ℕ) → n ≤ m → f m ≡ some r) × Always (Tracked q) r)

  turn-Ends : (s : Server Conn) (event : Event) → Tracked q s → Ends (λ n. turn q env n s event)
  unfolding turn
  turn-Ends s poll_failed t = (0, panicked, ((λ m le. refl), tt))
  turn-Ends s timed_out t = iteration_ends q ids env accepts pending sends s none t
  turn-Ends s (packets ds) t = iteration_ends q ids env accepts pending sends s (some ds) t

  -- For a `send` that makes a packet only of what the connection still has to send: the loop gets
  -- through whatever its waits bring, and as long as it does not panic every client is in the status
  -- map, under the source id of its connection.
  pub server_loop_ends :
      (events : List Event) (s : Server Conn)
      → Tracked q s
      → (n : ℕ) × (r : Run (Server Conn)) × (((m : ℕ)
            → n ≤ m
            → server_loop q env m s events ≡ some r)
          × Always (Tracked q) r)
  unfolding server_loop
  server_loop_ends [] s t = (0, ok s, ((λ m le. refl), t))
  server_loop_ends (event ∷ events) s t =
      let (n, r, (e, a)) = turn-Ends s event t in go n r e a (server_loop_ends events)
    where
      go :
          (n : ℕ) (r : Run (Server Conn))
          → ((m : ℕ) → n ≤ m → turn q env m s event ≡ some r)
          → Always (Tracked q) r
          → ((s' : Server Conn) → Tracked q s' → Ends (λ m. server_loop q env m s' events))
          → Ends (λ m. server_loop q env m s (event ∷ events))
      go n err e a ih = (n, err, ((λ m le. rw (server_loop, e m le) refl), tt))
      go n panicked e a ih = (n, panicked, ((λ m le. rw (server_loop, e m le) refl), tt))
      go n (ok s') e a ih =
          let (n', r, (f, b)) = ih s' a in
          (n + n', r, ((λ m le. rw (server_loop, e m (ground arith)) (f m (ground arith))), b))
