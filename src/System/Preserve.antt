-- ===== src/System/Preserve.antt =====
-- The invariant of System/Sound, from one step of the system to the next.
pub mod Packets
use nanwei_api_rust.Prelude.{
  ℕ, ◌≡◌, refl, sym, ◌∙◌, true, List, [], ◌∷◌, Option, none, some, is_some, arith, Bool-cases, inl,
  inr, ◌==◌, nat_eq, nat_beq_iff, bytes_eq, bytes_beq_iff, if◌then◌else◌,
}
use nanwei_api_rust.Prelude.Map.{IsUnique, get, get-insert, insert-IsUnique}
use nanwei_api_rust.Prelude.Run.{ok, >>=-ok}
use nanwei_api_rust.World.{
  ClientStatus, not_connected, connected, accepted, close, wait, SharedStreams,
}
use nanwei_api_rust.Server.Packet.{Client, Server}
use nanwei_api_rust.Server.Packet.Tracked.{Tracked}
use nanwei_api_rust.Server.Packet.Changes.{Change, same, joined, Joined}
use nanwei_api_rust.Server.Collect.{collect, retain}
use nanwei_api_rust.Server.Collect.Kept.{collect_lem, keep, is_garbage}
use nanwei_api_rust.Ffi.Accept.{accept_pass}
use nanwei_api_rust.Ffi.Accept.Pass.{get-accept_pass, accepted_entry, accept_pass-IsUnique}
use nanwei_api_rust.Ffi.Status.{Tracked-status}
use nanwei_api_rust.System.{System, Program, Step, Reach, stay, next, Start}
use nanwei_api_rust.System.Sound.{Sound, IsGone, elem, Sound-Demoted, Start-Sound}
use nanwei_api_rust.System.Effect.{
  Lawful, Effect, changed, swept, handed_out, reordered, called, Step-Effect,
}
use nanwei_api_rust.System.Preserve.Packets.{Sound-packet}

module _ {Conn : Type 0} (p : Program Conn) (laws : Lawful p) where
  collect_next :
      (s s' : Server Conn) → collect p.quiche p.env s ≡ ok s' → s'.next_conn ≡ s.next_conn
  unfolding collect
  collect_next s s' h =
      let (l, e, f) = >>=-ok (retain p.quiche p.env s.client_status s.conn s.clients) _ s' h in
      ground arith

  is_garbage-IsGone :
      (c : Conn) (o : Option (ℕ × ClientStatus)) → is_garbage p.quiche p.env c o ≡ true → IsGone o
  is_garbage-IsGone c none h = tt
  is_garbage-IsGone c (some (r, close)) h = refl
  is_garbage-IsGone c (some (r, not_connected)) h = absurd (ground arith)
  is_garbage-IsGone c (some (r, connected)) h = absurd (ground arith)
  is_garbage-IsGone c (some (r, accepted)) h = absurd (ground arith)
  is_garbage-IsGone c (some (r, wait)) h = absurd (ground arith)

  -- A client that a collection does not keep has gone.
  unkept-IsGone :
      (st : SharedStreams) (conn : ℕ → Conn) (k : List ℕ) (o : Option Client)
      → (o ≡ none → IsGone (get k st))
      → keep p.quiche p.env st conn k o ≡ none
      → IsGone (get k st)
  unkept-IsGone st conn k none before h = before refl
  unkept-IsGone st conn k (some client) before h =
      is_garbage-IsGone (conn client.conn) (get k st) (ground arith)

  Sound-collected :
      (sys : System Conn) (s : Server Conn)
      → Sound p.quiche sys
      → collect p.quiche p.env sys.server ≡ ok s
      → Sound p.quiche (record sys { server = s })
  Sound-collected sys s i h =
      let r = collect_lem p.quiche p.env sys.server i.tracked in
      let now : s ≡ r.after = ground (arith, r.runs) in
      let st : s.client_status ≡ sys.server.client_status = rw now r.status_kept in
      let nx = collect_next sys.server s h in
      record {
        tracked = rw now r.tracked;
        unique = rw st i.unique;
        allocated = rw nx i.allocated;
        in_use = λ k c a g. rw nx (i.in_use k c a (rw st at g));
        apart = λ k j c a b g f. i.apart k j c a b (rw st at g) (rw st at f);
        departed = λ k g. rw st (
            unkept-IsGone sys.server.client_status sys.server.conn k (get k sys.server.clients)
              (i.departed k) (sym (r.finds k) ∙ ground arith));
        given_in_use = λ c g. rw nx (i.given_in_use c g);
        not_waiting = λ k c g. i.not_waiting k c (rw st at g);
        once = i.once;
      }

  Sound-accepting :
      (sys : System Conn) (id : List ℕ) (r : ℕ)
      → Sound p.quiche sys
      → (accept_pass sys.server.client_status).0 ≡ some (id, r)
      → Sound p.quiche (record sys {
        server = record (sys.server) { client_status = (accept_pass sys.server.client_status).1 };
        given = r ∷ sys.given;
      })
  Sound-accepting sys id r i e =
      let m₀ = sys.server.client_status in
      let was : get id m₀ ≡ some (r, connected) = (get-accept_pass m₀ id id r i.unique e).0 in
      let at : (k : List ℕ) → get k (accept_pass m₀).1 ≡ accepted_entry (id == k) r (get k m₀) =
        λ k. (get-accept_pass m₀ id k r i.unique e).1 in
      record {
        tracked = (Tracked-status p.quiche sys.server [] i.unique i.tracked).0;
        unique = (accept_pass-IsUnique m₀ i.unique);
        allocated = i.allocated;
        in_use = λ k c a g. ground (arith, at k, was, i.in_use k c a, i.in_use id r connected);
        apart = λ k j c a b g f. ground (
          arith,
          at k,
          at j,
          was,
          bytes_beq_iff id k,
          bytes_beq_iff id j,
          i.apart k j c a b,
          i.apart id j c connected b,
          i.apart k id c a connected,
        );
        departed = λ k g. elim (Bool-cases (id == k)) [
          | inr n ↦ rw (at k, n) (i.departed k g)
          | inl y ↦ absurd (
              let gone = i.departed k g in
              let here = rw (← (bytes_beq_iff id k).0 y, was) at gone in ground arith)
        ];
        given_in_use =
            λ c g. ground (arith, nat_beq_iff c r, i.given_in_use c, i.in_use id r connected);
        not_waiting = λ k c g. ground (
          arith,
          at k,
          was,
          bytes_beq_iff id k,
          nat_beq_iff c r,
          i.not_waiting k c,
          i.apart k id c connected connected,
        );
        once = (i.not_waiting id r was, i.once);
      }

  Sound-reordered :
      (sys : System Conn) (m : SharedStreams) (clients : List (List ℕ × Client))
      → Sound p.quiche sys
      → IsUnique m
      → IsUnique clients
      → ((k : List ℕ) → get k m ≡ get k sys.server.client_status)
      → ((k : List ℕ) → get k clients ≡ get k sys.server.clients)
      → Sound p.quiche
          (record sys { server = record (sys.server) { client_status = m; clients = clients } })
  Sound-reordered sys m clients i u v e f = record {
    tracked = record {
      unique = v;
      own_id = λ k cl h. i.tracked.own_id k cl (sym (f k) ∙ h);
      listed = λ k cl h. rw (e k) (i.tracked.listed k cl (sym (f k) ∙ h));
      known = λ k cl h. i.tracked.known k cl (sym (f k) ∙ h);
    };
    unique = u;
    allocated = i.allocated;
    in_use = λ k c a h. i.in_use k c a (sym (e k) ∙ h);
    apart = λ k j c a b h g. i.apart k j c a b (sym (e k) ∙ h) (sym (e j) ∙ g);
    departed = λ k h. rw (e k) (i.departed k (sym (f k) ∙ h));
    given_in_use = i.given_in_use;
    not_waiting = λ k c h. i.not_waiting k c (sym (e k) ∙ h);
    once = i.once;
  }

  Effect-Sound :
      (sys sys' : System Conn) → Sound p.quiche sys → Effect p sys sys' → Sound p.quiche sys'
  Effect-Sound sys _ i (changed s t c) = Sound-packet p sys s i t c
  Effect-Sound sys _ i (swept s h) = Sound-collected sys s i h
  Effect-Sound sys _ i (handed_out id c e) = Sound-accepting sys id c i e
  Effect-Sound sys _ i (reordered m clients u v e f) = Sound-reordered sys m clients i u v e f
  Effect-Sound sys sys' i (called _ k d cs gs sh) = Sound-Demoted p.quiche sys sys' i k d cs gs sh

  pub Step-Sound :
      (sys sys' : System Conn) → Sound p.quiche sys → Step p sys sys' → Sound p.quiche sys'
  Step-Sound sys sys' i a =
      Effect-Sound sys sys' i (Step-Effect p laws sys sys' i.tracked i.allocated a)

  -- However the server's thread, the threads of the clients and the calls of the C program take turns, in
  -- every state that the system reaches: every client of the server is in the status map, under the source
  -- id of its connection; an id without a client has no entry or a closed one; no two entries have the
  -- same connection; and what `dtp_accept` has handed out is distinct and waits no longer.
  pub Reach-Sound : (sys sys' : System Conn) → Start sys → Reach p sys sys' → Sound p.quiche sys'
  Reach-Sound sys _ s stay = Start-Sound p.quiche sys s
  Reach-Sound sys _ s (next r a) = Step-Sound _ _ (Reach-Sound sys _ s r) a
