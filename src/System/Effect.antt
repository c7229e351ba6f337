-- ===== src/System/Effect.antt =====
-- What a step of the system does to the server's clients and to its status map.
pub mod Transfers
pub mod Calls
pub mod Closing
use nanwei_api_rust.Prelude.{
  ℕ, ◌+◌, ◌<◌, ◌≡◌, refl, sym, subst, ◌∙◌, Bool, true, false, not, List, [], ◌∷◌, Option, none,
  some, is_some, arith, Bool-cases, Option-cases, inl, inr, ◌==◌, ◌||◌, nat_eq, nat_beq,
  nat_beq_iff, nat_beq_self, bytes_eq, bytes_beq_iff, if◌then◌else◌, All,
}
use nanwei_api_rust.Prelude.Map.{get, insert, get-insert, insert-IsUnique, IsUnique}
use nanwei_api_rust.Prelude.Run.{Run, ok, err, panicked, >>=-ok, Always-ok}
use nanwei_api_rust.Quiche.{Quiche, IdLaws, SocketAddr, success}
use nanwei_api_rust.World.{
  ClientStatus, not_connected, connected, accepted, close, wait, SharedStreams, DtpConnection,
  update,
}
use nanwei_api_rust.Api.{DtpClient, World}
use nanwei_api_rust.Server.Packet.{Client, Server}
use nanwei_api_rust.Server.Packet.Tracked.{Tracked, IsListed}
use nanwei_api_rust.Server.Packet.Loop.{Tracked-read_packet}
use nanwei_api_rust.Server.Packet.Changes.{Change, same, joined, Joined, Change-read_packet}
use nanwei_api_rust.Server.Collect.{time_out, collect, retain, is_close, flush_client}
use nanwei_api_rust.Server.Collect.Kept.{collect_lem, keep, is_garbage}
use nanwei_api_rust.Outgoing.{Datagram, flush_conn}
use nanwei_api_rust.Server.Collect.Round.{Tracked-flush_client, Tracked-time_out}
use nanwei_api_rust.Ffi.Sockets.{DtpServerConns}
use nanwei_api_rust.Ffi.Accept.{handle_of, accept_loop, accept_pass, returned, dtp_accept}
use nanwei_api_rust.Ffi.Accept.Pass.{get-accept_pass, accepted_entry, accept_pass-IsUnique}
use nanwei_api_rust.Ffi.Status.{Tracked-status}
use nanwei_api_rust.System.{
  System, Program, Step, packet, expired, flushed, collected, rehashed, client_turn, accepting,
  closing, sending, receiving, opening, dropping, binding, listening, connecting, Reach, stay, next,
  Start, world_of, with_world, with_conn,
}
use nanwei_api_rust.System.Sound.{Kept, Demoted, left, IsGone, elem, Sound-Demoted, Start-Sound}
use nanwei_api_rust.System.Effect.Transfers.{
  Kept-update, dtp_recv-Kept, dtp_send-Kept, client_round_id,
}
use nanwei_api_rust.System.Effect.Calls.{
  Leaves, Idles, Idles-Leaves, dtp_socket-Idles, dtp_socket_close-Idles, dtp_listen-Idles,
  dtp_bind-Idles, dtp_connect-Idles,
}
use nanwei_api_rust.System.Effect.Closing.{dtp_close-Leaves}

-- What the program relies on: no operation of the library changes the id of a connection, `accept`
-- gives the id that it is asked for, and the thread of a client ends with the id that it started with.
pub record Lawful {Conn : Type 0} (p : Program Conn) : Type 0 where
  pub ids : IdLaws p.quiche
  pub accepts :
      (scid odcid : List ℕ) (from : SocketAddr) (c : Conn)
      → p.env.accept scid odcid from ≡ success c
      → p.quiche.source_id c ≡ scid
  pub joins :
      (client : DtpClient) (c c' : Conn)
      → p.join client c ≡ some c'
      → p.quiche.source_id c' ≡ p.quiche.source_id c

-- A step is a packet or the like, a collection, an acceptance, another order of the entries, or a call that leaves the clients alone.
pub data Effect {Conn : Type 0} (p : Program Conn) (sys : System Conn) : System Conn → Type 0 where
  changed :
      (s : Server Conn)
      → Tracked p.quiche s
      → Change p.quiche p.env sys.server s
      → Effect p sys (record sys { server = s })
  swept :
      (s : Server Conn)
      → collect p.quiche p.env sys.server ≡ ok s
      → Effect p sys (record sys { server = s })
  handed_out :
      (id : List ℕ) (c : ℕ)
      → (accept_pass sys.server.client_status).0 ≡ some (id, c)
      → Effect p sys (record sys {
        server = record (sys.server) { client_status = (accept_pass sys.server.client_status).1 };
        given = c ∷ sys.given;
      })
  reordered :
      (m : SharedStreams) (clients : List (List ℕ × Client))
      → IsUnique m
      → IsUnique clients
      → ((k : List ℕ) → get k m ≡ get k sys.server.client_status)
      → ((k : List ℕ) → get k clients ≡ get k sys.server.clients)
      → Effect p sys
          (record sys { server = record (sys.server) { client_status = m; clients = clients } })
  called :
      (sys' : System Conn)
      → Kept p.quiche sys.server.conn sys'.server.conn sys.server.next_conn sys'.server.next_conn
      → Demoted sys.server.client_status sys'.server.client_status
      → sys'.server.clients ≡ sys.server.clients
      → sys'.given ≡ sys.given
      → sys'.shared ≡ sys.shared
      → Effect p sys sys'

module _ {Conn : Type 0} (p : Program Conn) (laws : Lawful p) where
  Effect-calls :
      (sys : System Conn) (w : World Conn)
      → Leaves p.quiche laws.ids sys.shared (world_of sys) w
      → Effect p sys (with_world sys w)
  Effect-calls sys w l =
      called (with_world sys w) l.kept (rw (nat_beq_self sys.shared) at l.status) refl refl refl

  Effect-Idles :
      (sys : System Conn) (w : World Conn)
      → Idles p.quiche laws.ids sys.shared (world_of sys) w
      → Effect p sys (with_world sys w)
  Effect-Idles sys w i =
      Effect-calls sys w (Idles-Leaves p.quiche laws.ids sys.shared (world_of sys) w i)

  Effect-conn :
      (sys : System Conn) (conn : ℕ → Conn)
      → Kept p.quiche sys.server.conn conn sys.server.next_conn sys.server.next_conn
      → Effect p sys (with_conn sys conn)
  Effect-conn sys conn k = called (with_conn sys conn) k left refl refl refl

  pub flush_client_lem :
      (n : ℕ) (s s' : Server Conn) (client : Client)
      → flush_client p.quiche p.env n s client ≡ some (ok s')
      → (s'.clients ≡ s.clients)
        × (s'.client_status ≡ s.client_status)
        × (s'.next_conn ≡ s.next_conn)
  unfolding flush_client
  flush_client_lem n s s' client h =
      go (flush_conn p.quiche p.env.send_to n (s.conn client.conn) s.outbox) refl
    where
      go :
          (o : Option (Run (Conn × List Datagram)))
          → flush_conn p.quiche p.env.send_to n (s.conn client.conn) s.outbox ≡ o
          → (s'.clients ≡ s.clients)
            × (s'.client_status ≡ s.client_status)
            × (s'.next_conn ≡ s.next_conn)
      go none e = absurd (let h' = rw (flush_client, e) at h in ground arith)
      go (some err) e = absurd (let h' = rw (flush_client, e) at h in ground arith)
      go (some panicked) e = absurd (let h' = rw (flush_client, e) at h in ground arith)
      go (some (ok x)) e = let h' = rw (flush_client, e) at h in ground arith

  Effect-flushed :
      (sys : System Conn) (n : ℕ) (client : Client) (s : Server Conn)
      → Tracked p.quiche sys.server
      → flush_client p.quiche p.env n sys.server client ≡ some (ok s)
      → Effect p sys (record sys { server = s })
  Effect-flushed sys n client s t h =
      let (cs, st, nx) = flush_client_lem n sys.server s client h in
      changed s (Tracked-flush_client p.quiche p.env laws.ids n sys.server s client t h)
        (same (record { keys = λ k. rw cs refl; status = st; next = nx }))

  pub accepted_once :
      (conns : DtpServerConns) (is_block : Bool) (m m' : SharedStreams) (io : DtpConnection)
      → dtp_accept (some conns) is_block (m ∷ []) ≡ returned (some io) (some m')
      → (id : List ℕ) × ((accept_pass m).0 ≡ some (id, io.conn)) × (m' ≡ (accept_pass m).1)
  unfolding dtp_accept accept_loop handle_of
  accepted_once conns is_block m m' io h = elim (Option-cases (accept_pass m).0) [
    | inl e ↦ absurd (elim (Bool-cases is_block) [ inl b ↦ ground arith | inr b ↦ ground arith ])
    | inr ((id, c), e) ↦
        let (x, y) : (io.conn ≡ c) × (m' ≡ (accept_pass m).1) = ground arith in (id, rw x e, y)
  ]

  Effect-accepting :
      (sys : System Conn) (conns : DtpServerConns) (is_block : Bool) (io : DtpConnection)
      (m : SharedStreams)
      → dtp_accept (some conns) is_block (sys.server.client_status ∷ [])
        ≡ returned (some io) (some m)
      → Effect p sys (record sys {
        server = record (sys.server) { client_status = m };
        given = io.conn ∷ sys.given;
      })
  Effect-accepting sys conns is_block io m h =
      let (id, e, now) = accepted_once conns is_block sys.server.client_status m io h in
      rw now (handed_out id io.conn e)

  pub Step-Effect :
      (sys sys' : System Conn)
      → Tracked p.quiche sys.server
      → sys.shared < sys.server.next_conn
      → Step p sys sys'
      → Effect p sys sys'
  unfolding time_out
  Step-Effect sys _ t a (packet d control s h) =
      changed s
        (Always-ok (λ r. Tracked p.quiche r.1) _ (control, s) h
          (Tracked-read_packet p.quiche laws.ids p.env laws.accepts sys.server d t))
        (Always-ok (λ r. Change p.quiche p.env sys.server r.1) _ (control, s) h
          (Change-read_packet p.quiche p.env sys.server d))
  Step-Effect sys _ t a (expired k client g) =
      changed _ (Tracked-time_out p.quiche p.env laws.ids ((k, client) ∷ []) sys.server t)
        (same (record { keys = λ j. refl; status = refl; next = refl }))
  Step-Effect sys _ t a (flushed k client n s g h) = Effect-flushed sys n client s t h
  Step-Effect sys _ t a (collected s h) = swept s h
  Step-Effect sys _ t a (rehashed m clients u v e f) = reordered m clients u v e f
  Step-Effect sys _ t a (client_turn sock client n outbox event progress g h) = Effect-conn sys _ (
      Kept-update p.quiche laws.ids sys.server.conn _ client.conn _
        (client_round_id p.quiche laws.ids p.client_send_to n _ outbox event progress h))
  Step-Effect sys _ t a (accepting conns is_block io m e h) =
      Effect-accepting sys conns is_block io m h
  Step-Effect sys _ t a (closing io r h) =
      Effect-calls sys r.world
        (dtp_close-Leaves p.quiche laws.ids p.wake p.join p.debug laws.joins sys.shared _ io r h)
  Step-Effect sys _ t a (sending io buf fin id r h) =
      Effect-conn sys r.state (dtp_send-Kept p.quiche laws.ids p.wake _ _ io buf fin id r h)
  Step-Effect sys _ t a (receiving io buflen id fin) =
      Effect-conn sys _ (dtp_recv-Kept p.quiche laws.ids _ _ io buflen id fin)
  Step-Effect sys _ t a opening =
      Effect-Idles sys _ (dtp_socket-Idles p.quiche laws.ids sys.shared _)
  Step-Effect sys _ t a (dropping sock) =
      Effect-Idles sys _ (dtp_socket_close-Idles p.quiche laws.ids sys.shared _ sock)
  Step-Effect sys _ t a (binding os sock ip port r h) =
      Effect-Idles sys r.1 (dtp_bind-Idles p.quiche laws.ids os sys.shared _ sock ip port r a h)
  Step-Effect sys _ t a (listening sock config) =
      Effect-Idles sys _ (dtp_listen-Idles p.quiche laws.ids sys.shared _ sock config)
  Step-Effect sys _ t a (connecting os sock ip port config r h) =
      Effect-Idles sys r.0
        (dtp_connect-Idles p.quiche laws.ids os sys.shared _ sock ip port config r h)
