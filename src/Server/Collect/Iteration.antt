-- ===== src/Server/Collect/Iteration.antt =====
-- One iteration of `server_loop` in src/server.rs.
use nanwei_api_rust.Prelude.{ℕ, ◌<◌, ◌≤◌, ◌≡◌, ◌∙◌, ap, refl, arith, List, Option, none, some}
use nanwei_api_rust.Prelude.Run.{Run, ok, err, panicked, ◌>>=◌, Always, Always->>=, Always-ok}
use nanwei_api_rust.Quiche.{Quiche, success, SocketAddr, IdLaws}
use nanwei_api_rust.Outgoing.{Datagram, Arrival}
use nanwei_api_rust.Server.Packet.{Server, Env}
use nanwei_api_rust.Server.Packet.Tracked.{Tracked}
use nanwei_api_rust.Server.Packet.Loop.{Always-read_loop}
use nanwei_api_rust.Server.Collect.{collect, receive, iteration}
use nanwei_api_rust.Server.Collect.Kept.{collect_lem}
use nanwei_api_rust.Server.Collect.Round.{flush_enough, Tracked-flush, Tracked-time_out}

module _ {Conn : Type 0} (q : Quiche Conn) (ids : IdLaws q) (env : Env Conn)
    (accepts : (scid odcid : List ℕ) (from : SocketAddr) (c : Conn)
      → env.accept scid odcid from ≡ success c
      → q.source_id c ≡ scid) where
  Always-receive :
      (s : Server Conn) (events : Option (List Arrival))
      → Tracked q s
      → Always (Tracked q) (receive q env s events)
  unfolding receive
  Always-receive s none t = Tracked-time_out q env ids s.clients s t
  Always-receive s (some ds) t = Always-read_loop q ids env accepts ds s t

  Always-collect : (s : Server Conn) → Tracked q s → Always (Tracked q) (collect q env s)
  Always-collect s t = let r = collect_lem q env s t in rw (Always, r.runs) r.tracked

  -- For a `send` that makes a packet only of what the connection still has to send: an iteration
  -- ends, whatever `poll` brought, and if it ends without a panic then every client is still in the
  -- status map, under the source id of its connection.
  pub iteration_ends :
      (pending : Conn → ℕ)
      → ((c : Conn) (d : Datagram) → (q.send c).0 ≡ success d → pending (q.send c).1 < pending c)
      → (s : Server Conn) (events : Option (List Arrival)) → Tracked q s
      → (n : ℕ) × (r : Run (Server Conn)) × (((m : ℕ) → n ≤ m → iteration q env m s events ≡ some r)
          × Always (Tracked q) r)
  unfolding iteration
  iteration_ends pending sends s events t = go (receive q env s events) refl
    where
      go :
          (a : Run (Server Conn))
          → receive q env s events ≡ a
          → (n : ℕ) × (r : Run (Server Conn)) × (((m : ℕ)
                → n ≤ m
                → iteration q env m s events ≡ some r)
              × Always (Tracked q) r)
      go err e = (0, err, ((λ m le. rw (iteration, e) refl), tt))
      go panicked e = (0, panicked, ((λ m le. rw (iteration, e) refl), tt))
      go (ok s₁) e =
          let (n, r, f) = flush_enough q env pending sends s₁.clients s₁ in
          (
            n,
            (r >>= collect q env),
            (
              (λ m le. rw (iteration, e, f m le) refl),
              Always->>= (Tracked q) r (collect q env) λ s₂ w. Always-collect s₂ (
                  Tracked-flush q env ids n s₁.clients s₁ s₂
                    (Always-ok (Tracked q) _ s₁ e (Always-receive s events t))
                    (f n (ground arith) ∙ ap some w)),
            ),
          )
