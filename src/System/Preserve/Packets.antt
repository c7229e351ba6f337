-- ===== src/System/Preserve/Packets.antt =====
-- The packets that the server reads (`read_loop` in src/server.rs), as steps of the system, against
-- the invariant of System/Sound.
use nanwei_api_rust.Prelude.{
  ℕ, ◌≡◌, List, some, is_some, arith, Bool-cases, inl, inr, ◌==◌, nat_eq, bytes_eq, bytes_beq_iff,
  if◌then◌else◌,
}
use nanwei_api_rust.Prelude.Map.{get, get-insert, insert-IsUnique}
use nanwei_api_rust.World.{connected}
use nanwei_api_rust.Server.Packet.{Server}
use nanwei_api_rust.Server.Packet.Tracked.{Tracked}
use nanwei_api_rust.Server.Packet.Changes.{Change, same, joined, Joined}
use nanwei_api_rust.System.{System, Program}
use nanwei_api_rust.System.Sound.{Sound, elem}

module _ {Conn : Type 0} (p : Program Conn) where
  -- The status map, the clients and the references are as before.
  Sound-server :
      (sys : System Conn) (s : Server Conn)
      → Sound p.quiche sys
      → Tracked p.quiche s
      → ((k : List ℕ) → is_some (get k s.clients) ≡ is_some (get k sys.server.clients))
      → s.client_status ≡ sys.server.client_status
      → s.next_conn ≡ sys.server.next_conn
      → Sound p.quiche (record sys { server = s })
  Sound-server sys s i t cs st n = record {
    tracked = t;
    unique = rw st i.unique;
    allocated = rw n i.allocated;
    in_use = λ k c a h. rw n (i.in_use k c a (rw st at h));
    apart = λ k j c a b h g. i.apart k j c a b (rw st at h) (rw st at g);
    departed = λ k h. rw st (i.departed k (ground (arith, cs k)));
    given_in_use = λ c h. rw n (i.given_in_use c h);
    not_waiting = λ k c h. i.not_waiting k c (rw st at h);
    once = i.once;
  }

  Sound-Joined :
      (sys : System Conn) (s : Server Conn)
      → Sound p.quiche sys
      → Tracked p.quiche s
      → Joined p.quiche p.env sys.server s
      → Sound p.quiche (record sys { server = s })
  Sound-Joined sys s i t j =
      let status : (k : List ℕ)
          → get k s.client_status ≡ (
              if j.key == k
              then some (sys.server.next_conn, connected)
              else get k sys.server.client_status) =
        λ k.
          rw j.status
            (get-insert j.key k (sys.server.next_conn, connected) sys.server.client_status) in
      record {
        tracked = t;
        unique = rw j.status (insert-IsUnique j.key _ sys.server.client_status i.unique);
        allocated = ground (arith, j.next, i.allocated);
        in_use = λ k c a h. ground (arith, status k, j.next, i.in_use k c a);
        apart = λ k l c a b h g. ground (
          arith,
          status k,
          status l,
          bytes_beq_iff j.key k,
          bytes_beq_iff j.key l,
          i.apart k l c a b,
          i.in_use k c a,
          i.in_use l c b,
        );
        departed = λ k h. elim (Bool-cases (j.key == k)) [
          | inl y ↦ absurd (ground (arith, j.keys k))
          | inr n ↦ rw (status k, n) (i.departed k (ground (arith, j.keys k)))
        ];
        given_in_use = λ c h. ground (arith, j.next, i.given_in_use c);
        not_waiting = λ k c h.
            ground
              (arith, status k, i.not_waiting k c, i.given_in_use c, Bool-cases (elem c sys.given));
        once = i.once;
      }

  pub Sound-packet :
      (sys : System Conn) (s : Server Conn)
      → Sound p.quiche sys
      → Tracked p.quiche s
      → Change p.quiche p.env sys.server s
      → Sound p.quiche (record sys { server = s })
  Sound-packet sys s i t (same a) = Sound-server sys s i t a.keys a.status a.next
  Sound-packet sys s i t (joined j) = Sound-Joined sys s i t j
