-- ===== src/Ffi/Status.antt =====
-- The status map of a server, which `dtp_accept` and `dtp_close` of src/ffi.rs change while the thread
-- of the server works with it.
use nanwei_api_rust.Prelude.{
  ℕ, Bool, true, false, List, Option, none, some, Bool-cases, Option-cases, inl, inr, ◌==◌,
  bytes_eq, bytes_beq_iff,
}
use nanwei_api_rust.Prelude.Map.{get, IsUnique}
use nanwei_api_rust.Quiche.{Quiche}
use nanwei_api_rust.World.{ClientStatus, SharedStreams}
use nanwei_api_rust.Server.Packet.{Server}
use nanwei_api_rust.Server.Packet.Tracked.{Tracked, IsListed}
use nanwei_api_rust.Ffi.Accept.{accept_pass}
use nanwei_api_rust.Ffi.Accept.Pass.{get-accept_pass, accept_pass_idle}
use nanwei_api_rust.Ffi.Close.{mark_close}
use nanwei_api_rust.Ffi.Close.Branches.{closed_entry, get-mark_close}

closed_entry-IsListed :
    (b : Bool) (o : Option (ℕ × ClientStatus)) (c : ℕ)
    → IsListed o c
    → IsListed (closed_entry b o) c
closed_entry-IsListed true none c h = h
closed_entry-IsListed true (some entry) c h = h
closed_entry-IsListed false none c h = h
closed_entry-IsListed false (some entry) c h = h

accept_pass-IsListed :
    (m : SharedStreams) (k : List ℕ) (c : ℕ)
    → IsUnique m
    → IsListed (get k m) c
    → IsListed (get k (accept_pass m).1) c
accept_pass-IsListed m k c u h = elim (Option-cases (accept_pass m).0) [
  | inl e ↦ rw (accept_pass_idle m e) h
  | inr ((id, d), e) ↦
      let (was, now) = get-accept_pass m id k d u e in
      elim (Bool-cases (id == k)) [
        | inr n ↦ rw (now, n) h
        | inl y ↦ rw (now, y) (rw (← (bytes_beq_iff id k).0 y, was) at h)
      ]
]

module _ {Conn : Type 0} (q : Quiche Conn) where
  with_status :
      (s : Server Conn) (m : SharedStreams)
      → Tracked q s
      → ((k : List ℕ) (c : ℕ) → IsListed (get k s.client_status) c → IsListed (get k m) c)
      → Tracked q (record s { client_status = m })
  with_status s m t keeps = record {
    unique = t.unique;
    own_id = t.own_id;
    listed = λ k cl h. keeps k cl.conn (t.listed k cl h);
    known = t.known;
  }

  -- What `dtp_accept` and `dtp_close` do to a status map with distinct keys keeps every client of the
  -- server in it, under the source id of its connection.
  pub Tracked-status :
      (s : Server Conn) (id : List ℕ)
      → IsUnique s.client_status
      → Tracked q s
      → Tracked q (record s { client_status = (accept_pass s.client_status).1 })
        × Tracked q (record s { client_status = mark_close id s.client_status })
  Tracked-status s id u t = (
    with_status s (accept_pass s.client_status).1 t
        (λ k c h. accept_pass-IsListed s.client_status k c u h),
    with_status s (mark_close id s.client_status) t (λ k c h.
        rw (get-mark_close id k s.client_status)
          (closed_entry-IsListed (id == k) (get k s.client_status) c h)),
  )
