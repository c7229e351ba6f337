-- ===== src/System/Lifecycle.antt =====
-- The life of a connection as a server of src/server.rs and the functions of src/ffi.rs agree on it: a
-- specification that knows of a connection only its id, its reference and how far it is, and the steps
-- of the system against it.
use nanwei_api_rust.Prelude.{
  ap, ℕ, ◌≡◌, ◌≢◌, refl, if◌then◌else◌, Bool, true, false, List, [], ◌∷◌, Option, none, some, arith,
  ◌==◌, nat_eq, nat_beq_self, bytes_eq, bytes_beq_self, bytes_beq_iff,
}
use nanwei_api_rust.Prelude.Map.{get, get-insert}
use nanwei_api_rust.Prelude.Run.{ok, Always-ok}
use nanwei_api_rust.World.{
  ClientStatus, not_connected, connected, accepted, close, wait, SharedStreams, DtpConnection,
}
use nanwei_api_rust.Api.{World}
use nanwei_api_rust.System.{
  System, Program, Step, packet, expired, flushed, collected, rehashed, client_turn, accepting,
  closing, sending, receiving, opening, dropping, binding, listening, connecting, Reach, Start,
  world_of, with_world,
}
use nanwei_api_rust.System.Sound.{Sound, Demoted, left, marked, IsGone}
use nanwei_api_rust.Ffi.Sockets.{DtpServerConns}
use nanwei_api_rust.Ffi.Accept.{returned, dtp_accept}
use nanwei_api_rust.Ffi.Accept.Pass.{get-accept_pass}
use nanwei_api_rust.Ffi.Close.Branches.{closed_entry, get-mark_close}
use nanwei_api_rust.Server.Packet.{Server}
use nanwei_api_rust.Server.Packet.Changes.{Change, same, joined, Change-read_packet}
use nanwei_api_rust.Server.Collect.{collect, time_out}
use nanwei_api_rust.Server.Collect.Kept.{collect_lem}
use nanwei_api_rust.System.Effect.{Lawful, accepted_once, flush_client_lem}
use nanwei_api_rust.System.Effect.Calls.{
  Leaves, Idles, dtp_socket-Idles, dtp_socket_close-Idles, dtp_listen-Idles, dtp_bind-Idles,
  dtp_connect-Idles,
}
use nanwei_api_rust.System.Effect.Closing.{dtp_close-Leaves}
use nanwei_api_rust.System.Preserve.{Reach-Sound}

-- What a connection is to the server and to the C program. `unused` are the two statuses that no code
-- gives.
pub data Stage : Type 0 where
  gone : Stage
  waiting taken unused : ℕ → Stage

abbrev pub stage : Option (ℕ × ClientStatus) → Stage
stage none = gone
stage (some (c, not_connected)) = unused c
stage (some (c, connected)) = waiting c
stage (some (c, accepted)) = taken c
stage (some (c, close)) = gone
stage (some (c, wait)) = unused c

-- What can happen: the server reads a packet, `dtp_accept` returns the handle of a connection,
-- `dtp_close` returns, or anything else.
pub data Event : Type 0 where
  reads : Event
  accepts : ℕ → Event
  closes : Event
  internal : Event

-- What the specification lets one connection do at an event.
pub data Move : Event → Stage → Stage → Type 0 where
  idle : {a : Stage} → Move internal a a
  turned_away : {a : Stage} → Move reads a a
  arrives : {c : ℕ} → Move reads gone (waiting c)
  is_taken : {c : ℕ} → Move (accepts c) (waiting c) (taken c)
  refuses : {a : Stage} → Move closes a a
  ends : {a : Stage} → Move closes a gone

-- A step of the specification: one connection moves, and no other.
pub record Moves (e : Event) (f g : List ℕ → Stage) : Type 0 where
  pub id : List ℕ
  pub move : Move e (f id) (g id)
  pub others : (k : List ℕ) → id ≢ k → g k ≡ f k

abbrev stages_of : SharedStreams → List ℕ → Stage
stages_of m k = stage (get k m)

abbrev pub stages : {Conn : Type 0} → System Conn → List ℕ → Stage
stages sys = stages_of sys.server.client_status

-- The event of a step.
abbrev pub event :
    {Conn : Type 0} {p : Program Conn} {sys sys' : System Conn} → Step p sys sys' → Event
event (packet d control s h) = reads
event (accepting conns is_block io m e h) = accepts io.conn
event (closing io r h) = closes
event s = internal

internal-Moves :
    (m m' : SharedStreams)
    → ((k : List ℕ) → get k m' ≡ get k m)
    → Moves internal (stages_of m) (stages_of m')
internal-Moves m m' e = record { id = []; move = rw (e []) idle; others = λ k n. ap stage (e k) }

closed_entry-Move :
    (b : Bool) (o : Option (ℕ × ClientStatus)) → Move closes (stage o) (stage (closed_entry b o))
closed_entry-Move false none = refuses
closed_entry-Move false (some e) = refuses
closed_entry-Move true none = refuses
closed_entry-Move true (some e) = ends

Demoted-Moves : (m m' : SharedStreams) → Demoted m m' → Moves closes (stages_of m) (stages_of m')
Demoted-Moves m _ left = record { id = []; move = refuses; others = λ k n. refl }
Demoted-Moves m _ (marked id) = record {
  id = id;
  move = rw (get-mark_close id id m) (closed_entry-Move (id == id) (get id m));
  others = λ k n. ground (arith, get-mark_close id k m, bytes_beq_iff id k);
}

IsGone-stage : (o : Option (ℕ × ClientStatus)) → IsGone o → stage o ≡ gone
IsGone-stage none h = refl
IsGone-stage (some (c, st)) h = rw h refl

module _ {Conn : Type 0} (p : Program Conn) (laws : Lawful p) where
  Change-Moves :
      (sys : System Conn) (s : Server Conn)
      → Sound p.quiche sys
      → Change p.quiche p.env sys.server s
      → Moves reads (stages sys) (stages_of s.client_status)
  Change-Moves sys s i (same a) = record {
    id = [];
    move = rw a.status turned_away;
    others = λ k n. rw a.status refl;
  }
  Change-Moves sys s i (joined j) =
      let status : (k : List ℕ)
          → get k s.client_status ≡ (
              if j.key == k
              then some (sys.server.next_conn, connected)
              else get k sys.server.client_status) =
        λ k. rw j.status (get-insert j.key k _ sys.server.client_status) in
      record {
        id = j.key;
        move =
            rw (status j.key, bytes_beq_self j.key, IsGone-stage _ (i.departed j.key j.new))
              arrives;
        others = λ k n. ground (arith, status k, bytes_beq_iff j.key k);
      }

  accepting-Moves :
      (sys : System Conn) (conns : DtpServerConns) (is_block : Bool) (io : DtpConnection)
      (m : SharedStreams)
      → Sound p.quiche sys
      → dtp_accept (some conns) is_block (sys.server.client_status ∷ [])
        ≡ returned (some io) (some m)
      → Moves (accepts io.conn) (stages sys) (stages_of m)
  accepting-Moves sys conns is_block io m i h =
      let (id, e, now) = accepted_once p laws conns is_block sys.server.client_status m io h in
      let at = λ (k : List ℕ). get-accept_pass sys.server.client_status id k io.conn i.unique e in
      rw now record {
        id = id;
        move = rw ((at id).1, bytes_beq_self id, (at id).0) is_taken;
        others = λ k n. ground (arith, (at k).1, bytes_beq_iff id k);
      }

  collected-Moves :
      (sys : System Conn) (s : Server Conn)
      → Sound p.quiche sys
      → collect p.quiche p.env sys.server ≡ ok s
      → Moves internal (stages sys) (stages_of s.client_status)
  collected-Moves sys s i h =
      let r = collect_lem p.quiche p.env sys.server i.tracked in
      let now : s ≡ r.after = ground (arith, r.runs) in
      internal-Moves _ _ λ k. rw (now, r.status_kept) refl

  Idles-Moves :
      (sys : System Conn) (w : World Conn)
      → Idles p.quiche laws.ids sys.shared (world_of sys) w
      → Moves internal (stages sys) (stages (with_world sys w))
  Idles-Moves sys w i = internal-Moves _ _ λ k. rw i.same (rw (nat_beq_self sys.shared) refl)

  closing-Moves :
      (sys : System Conn) (w : World Conn)
      → Leaves p.quiche laws.ids sys.shared (world_of sys) w
      → Moves closes (stages sys) (stages (with_world sys w))
  closing-Moves sys w l = Demoted-Moves _ _ (rw (nat_beq_self sys.shared) at l.status)

  step :
      (sys sys' : System Conn)
      → Sound p.quiche sys
      → (a : Step p sys sys') → Moves (event a) (stages sys) (stages sys')
  unfolding time_out
  step sys _ i (packet d control s h) = Change-Moves sys s i (
      Always-ok (λ r. Change p.quiche p.env sys.server r.1) _ (control, s) h
        (Change-read_packet p.quiche p.env sys.server d))
  step sys _ i (expired k client g) =
      internal-Moves (sys.server.client_status) (sys.server.client_status) λ k. refl
  step sys _ i (flushed k client n s g h) =
      internal-Moves sys.server.client_status s.client_status
        (λ k. rw (flush_client_lem p laws n sys.server s client h).1 refl)
  step sys _ i (collected s h) = collected-Moves sys s i h
  step sys _ i (rehashed m clients u v e f) = internal-Moves _ _ e
  step sys _ i (client_turn sock client n outbox e progress g h) =
      internal-Moves (sys.server.client_status) (sys.server.client_status) λ k. refl
  step sys _ i (accepting conns is_block io m e h) = accepting-Moves sys conns is_block io m i h
  step sys _ i (closing io r h) =
      closing-Moves sys r.world
        (dtp_close-Leaves p.quiche laws.ids p.wake p.join p.debug laws.joins sys.shared _ io r h)
  step sys _ i (sending io buf fin id r h) =
      internal-Moves (sys.server.client_status) (sys.server.client_status) λ k. refl
  step sys _ i (receiving io buflen id fin) =
      internal-Moves (sys.server.client_status) (sys.server.client_status) λ k. refl
  step sys _ i opening = Idles-Moves sys _ (dtp_socket-Idles p.quiche laws.ids sys.shared _)
  step sys _ i (dropping sock) =
      Idles-Moves sys _ (dtp_socket_close-Idles p.quiche laws.ids sys.shared _ sock)
  step sys _ i (binding os sock ip port r h) =
      Idles-Moves sys r.1
        (dtp_bind-Idles p.quiche laws.ids os sys.shared _ sock ip port r i.allocated h)
  step sys _ i (listening sock config) =
      Idles-Moves sys _ (dtp_listen-Idles p.quiche laws.ids sys.shared _ sock config)
  step sys _ i (connecting os sock ip port config r h) =
      Idles-Moves sys r.0
        (dtp_connect-Idles p.quiche laws.ids os sys.shared _ sock ip port config r h)

  -- Seen from the status map, each step of a run of the system is the step of the specification with
  -- the same event, and concerns one connection at most: reading a packet at most makes an unknown or
  -- closed id wait, with a connection; `dtp_accept` takes the waiting connection whose handle it
  -- returns; `dtp_close` at most ends a connection; every other step changes nothing.
  pub Step-Moves :
      (start sys sys' : System Conn)
      → Start start
      → Reach p start sys
      → (a : Step p sys sys') → Moves (event a) (stages sys) (stages sys')
  Step-Moves start sys sys' s r a = step sys sys' (Reach-Sound p laws start sys s r) a
