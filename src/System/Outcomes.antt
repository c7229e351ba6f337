-- ===== src/System/Outcomes.antt =====
-- What holds of a server of src/server.rs and of the C interface in src/ffi.rs, however the threads of
-- the program take turns.
use nanwei_api_rust.Prelude.{
  ℕ, false, ◌≡◌, refl, ◌∙◌, true, List, none, some, arith, Option-cases, inl, inr, bytes_eq,
  bytes_beq_self, nat_beq_self,
}
use nanwei_api_rust.Prelude.Int.{pos}
use nanwei_api_rust.Prelude.Map.{get}
use nanwei_api_rust.Prelude.Run.{ok}
use nanwei_api_rust.World.{close, SharedStreams}
use nanwei_api_rust.Ffi.Sockets.{DtpServerConns}
use nanwei_api_rust.Ffi.Accept.{handle_of}
use nanwei_api_rust.Ffi.Close.{Closed, dtp_close}
use nanwei_api_rust.Ffi.Close.Branches.{closed_entry, dtp_close_accepted}
use nanwei_api_rust.Server.Packet.{Client, Server}
use nanwei_api_rust.Server.Packet.Tracked.{IsListed}
use nanwei_api_rust.Server.Collect.{collect}
use nanwei_api_rust.Server.Collect.Kept.{collect_lem, keep}
use nanwei_api_rust.System.{System, Program, Reach, Start, world_of, with_world}
use nanwei_api_rust.System.Effect.{Lawful}
use nanwei_api_rust.System.Preserve.{Reach-Sound, Step-Sound}
use nanwei_api_rust.System.{closing}

module _ {Conn : Type 0} (p : Program Conn) (laws : Lawful p) where
  -- However the server, the clients and the calls of the C program take turns, the collection of closed
  -- clients never reaches its `unreachable!`: in every state that the system reaches it runs, and
  -- it leaves the status map as it is.
  pub collect_reachable :
      (start sys : System Conn)
      → Start start
      → Reach p start sys
      → (s : Server Conn) × (collect p.quiche p.env sys.server ≡ ok s)
        × (s.client_status ≡ sys.server.client_status)
  collect_reachable start sys st r =
      let c = collect_lem p.quiche p.env sys.server (Reach-Sound p laws start sys st r).tracked in
      (c.after, c.runs, c.status_kept)

  -- A closed entry of a closed connection is not kept.
  keep_closed :
      (st m : SharedStreams) (conn : ℕ → Conn) (id : List ℕ) (client : Client)
      → IsListed (get id m) client.conn
      → get id st ≡ closed_entry true (get id m)
      → p.quiche.is_closed (conn client.conn) ≡ true
      → keep p.quiche p.env st conn id (some client) ≡ none
  keep_closed st m conn id client l h closed = elim (Option-cases (get id m)) [
    | inl e ↦ absurd (rw e at l)
    | inr (entry, e) ↦
        let now : get id st ≡ some (entry.0, close) = ground arith in rw (now, closed) refl
  ]

  -- A client whose connection is open is kept.
  keep_open :
      (st : SharedStreams) (conn : ℕ → Conn) (k : List ℕ) (client : Client)
      → p.quiche.is_closed (conn client.conn) ≡ false
      → keep p.quiche p.env st conn k (some client) ≡ some client
  keep_open st conn k client alive = elim (Option-cases (get k st)) [
    | inl e ↦ rw e refl
    | inr (entry, e) ↦ rw (e, alive) refl
  ]

  -- In every state that the system reaches, closing a client of the server whose connection the library
  -- has closed succeeds, and the next collection drops this client: it is then in the table of the
  -- server no longer. The clients whose connections are open stay as they are.
  pub dtp_close-collect :
      (start sys : System Conn) (conns : DtpServerConns) (id : List ℕ) (client : Client)
      → Start start
      → Reach p start sys
      → conns.streams ≡ sys.shared
      → get id sys.server.clients ≡ some client
      → p.quiche.is_closed (sys.server.conn client.conn) ≡ true
      → (r : Closed Conn) × (s : Server Conn) × (dtp_close p.quiche p.wake p.join p.debug
            (world_of sys)
            (some (handle_of conns (id, client.conn)))
          ≡ ok r)
        × (r.ret ≡ pos 1)
        × (collect p.quiche p.env (with_world sys r.world).server ≡ ok s)
        × (get id s.clients ≡ none)
        × ((k : List ℕ) (other : Client)
            → get k sys.server.clients ≡ some other
            → p.quiche.is_closed (sys.server.conn other.conn) ≡ false
            → get k s.clients ≡ some other)
  dtp_close-collect start sys conns id client st reach e g closed =
      let i = Reach-Sound p laws start sys st reach in
      let (w, h, status, api, conn) =
        dtp_close_accepted p.quiche p.wake p.join p.debug (world_of sys) conns id client.conn
          closed in
      let i' = Step-Sound p laws sys _ i (closing (some (handle_of conns (id, client.conn))) _ h) in
      let c = collect_lem p.quiche p.env (with_world sys w).server i'.tracked in
      (
        _,
        c.after,
        h,
        refl,
        c.runs,
        c.finds id
            ∙ rw g (
                keep_closed (w.streams sys.shared) sys.server.client_status w.conn id client
                  (i.tracked.listed id client g)
                  (ground (arith, status id, bytes_beq_self id, nat_beq_self sys.shared))
                  (rw conn closed)),
        λ k other f alive.
            c.finds k ∙ rw f (keep_open (w.streams sys.shared) w.conn k other (rw conn alive)),
      )
