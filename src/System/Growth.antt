-- ===== src/System/Growth.antt =====
-- The status map of a server in src/server.rs only grows.
use nanwei_api_rust.Prelude.{
  ℕ, Bool-cases, inl, inr, ◌≡◌, refl, true, List, is_some, arith, ◌==◌, bytes_eq,
}
use nanwei_api_rust.Prelude.Map.{get, get-insert}
use nanwei_api_rust.World.{connected}
use nanwei_api_rust.System.{System, Program, Reach, stay, next, Start}
use nanwei_api_rust.System.Sound.{Demoted-get, Sound}
use nanwei_api_rust.Ffi.Accept.Pass.{get-accept_pass}
use nanwei_api_rust.Server.Packet.{Server}
use nanwei_api_rust.Server.Packet.Changes.{Change, same, joined}
use nanwei_api_rust.System.Effect.{
  Lawful, Effect, changed, swept, handed_out, reordered, called, Step-Effect,
}
use nanwei_api_rust.Server.Collect.Kept.{collect_lem}
use nanwei_api_rust.System.Preserve.{Reach-Sound, Step-Sound}

module _ {Conn : Type 0} (p : Program Conn) (laws : Lawful p) where
  Change-keeps :
      (sys : System Conn) (s : Server Conn) (k : List ℕ)
      → Change p.quiche p.env sys.server s
      → is_some (get k sys.server.client_status) ≡ true
      → is_some (get k s.client_status) ≡ true
  Change-keeps sys s k (same a) h = rw a.status h
  Change-keeps sys s k (joined j) h = rw j.status (
      ground (arith, get-insert j.key k (sys.server.next_conn, connected) sys.server.client_status))

  Effect-keeps :
      (sys sys' : System Conn) (k : List ℕ)
      → Sound p.quiche sys
      → Effect p sys sys'
      → is_some (get k sys.server.client_status) ≡ true
      → is_some (get k sys'.server.client_status) ≡ true
  Effect-keeps sys _ k i (changed s t c) h = Change-keeps sys s k c h
  Effect-keeps sys _ k i (swept s e) h =
      let r = collect_lem p.quiche p.env sys.server i.tracked in
      let now : s ≡ r.after = ground (arith, r.runs) in rw (now, r.status_kept) h
  Effect-keeps sys _ k i (handed_out id c e) h =
      ground (
        arith,
        (get-accept_pass sys.server.client_status id k c i.unique e).1,
        Bool-cases (id == k),
      )
  Effect-keeps sys _ k i (reordered m clients u v e f) h = rw (e k) h
  Effect-keeps sys sys' k i (called _ _ d cs gs sh) h =
      elim (Demoted-get sys.server.client_status sys'.server.client_status k d) [
        | inl e ↦ rw e h
        | inr (c, st, e, e') ↦ rw e' refl
      ]

  Reach-keeps :
      (sys sys' : System Conn) (k : List ℕ)
      → Sound p.quiche sys
      → Reach p sys sys'
      → is_some (get k sys.server.client_status) ≡ true
      → Sound p.quiche sys' × (is_some (get k sys'.server.client_status) ≡ true)
  Reach-keeps sys _ k i stay h = (i, h)
  Reach-keeps sys _ k i (next {a} {b} r st) h =
      let (j, g) = Reach-keeps sys a k i r h in
      (
        Step-Sound p laws a b j st,
        Effect-keeps a b k j (Step-Effect p laws a b j.tracked j.allocated st) g,
      )

  -- No entry of the status map is ever removed, though clients are: an id that is in it stays in it,
  -- whatever the threads do.
  pub client_status_keeps :
      (start sys sys' : System Conn) (k : List ℕ)
      → Start start
      → Reach p start sys
      → Reach p sys sys'
      → is_some (get k sys.server.client_status) ≡ true
      → is_some (get k sys'.server.client_status) ≡ true
  client_status_keeps start sys sys' k s r r' h =
      (Reach-keeps sys sys' k (Reach-Sound p laws start sys s r) r' h).1
