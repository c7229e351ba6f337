-- ===== src/System/Service.antt =====
-- That every client which waits for `dtp_accept` of src/ffi.rs can be served.
use nanwei_api_rust.Prelude.{
  ℕ, ◌≡◌, ◌≢◌, refl, ◌∙◌, true, inl, inr, List, [], ◌∷◌, some, arith, Bool-cases, ◌==◌, bytes_eq,
  bytes_beq_iff, nat_beq_self, nat_eq,
}
use nanwei_api_rust.Prelude.Map.{get}
use nanwei_api_rust.World.{connected, SharedStreams, DtpConnection}
use nanwei_api_rust.Ffi.Sockets.{DtpServerConns}
use nanwei_api_rust.Ffi.Accept.{handle_of, accept_pass, returned, dtp_accept}
use nanwei_api_rust.Ffi.Accept.Pass.{get-accept_pass, accept_pass_unfound}
use nanwei_api_rust.Main.Tasks.AllAccepted.{
  waiting_of, accept_pass-waiting_of, accept_pass-none, dtp_accept_next,
}
use nanwei_api_rust.System.{System, Program, accepting, Step, Reach, stay, next, Start}
use nanwei_api_rust.System.Sound.{Sound, elem}
use nanwei_api_rust.System.Effect.{Lawful}
use nanwei_api_rust.System.Preserve.{Reach-Sound, Step-Sound}

-- The system after a call of `dtp_accept` that has returned a handle.
abbrev pub after_call : {Conn : Type 0} → System Conn → DtpConnection → SharedStreams → System Conn
after_call sys io m = record sys {
  server = record (sys.server) { client_status = m };
  given = io.conn ∷ sys.given;
}

-- Blocking calls of `dtp_accept` one after the other, each on the map that the one before it left.
pub data Calls {Conn : Type 0} (conns : DtpServerConns) : System Conn → System Conn → Type 0 where
  no_more : {sys : System Conn} → Calls conns sys sys
  calls :
      {sys sys' : System Conn} (io : DtpConnection) (m : SharedStreams)
      → dtp_accept (some conns) true (sys.server.client_status ∷ []) ≡ returned (some io) (some m)
      → Calls conns (after_call sys io m) sys'
      → Calls conns sys sys'

-- Every waiting client of the first system has been handed out in the second.
record Serves {Conn : Type 0} (conns : DtpServerConns) (sys sys' : System Conn) : Type 0 where
  steps : Calls conns sys sys'
  none_waits : waiting_of sys'.server.client_status ≡ []
  still_given : (c : ℕ) → elem c sys.given ≡ true → elem c sys'.given ≡ true
  served :
      (k : List ℕ) (c : ℕ)
      → get k sys.server.client_status ≡ some (c, connected)
      → elem c sys'.given ≡ true

module _ {Conn : Type 0} (p : Program Conn) (laws : Lawful p) where
  after_first :
      (sys sys' : System Conn) (conns : DtpServerConns) (id : List ℕ) (r : ℕ)
      → Sound p.quiche sys
      → conns.streams ≡ sys.shared
      → (accept_pass sys.server.client_status).0 ≡ some (id, r)
      → Serves conns
          (record sys {
            server = record (sys.server) {
              client_status = (accept_pass sys.server.client_status).1;
            };
            given = r ∷ sys.given;
          })
          sys'
      → Serves conns sys sys'
  unfolding handle_of
  after_first sys sys' conns id r i e x s =
      let m = sys.server.client_status in
      let at = λ (k : List ℕ). get-accept_pass m id k r i.unique x in
      record {
        steps =
            calls (handle_of conns (id, r)) (accept_pass m).1 (dtp_accept_next conns m (id, r) x)
              s.steps;
        none_waits = s.none_waits;
        still_given = λ c h. s.still_given c (ground arith);
        served = λ k c h. elim (Bool-cases (id == k)) [
          | inl y ↦ s.still_given c (ground (arith, bytes_beq_iff id k, (at k).0, nat_beq_self r))
          | inr n ↦ s.served k c ((at k).1 ∙ rw n h)
        ];
      }

  serve_waiting :
      (l : List (List ℕ × ℕ)) (sys : System Conn) (conns : DtpServerConns)
      → Sound p.quiche sys
      → conns.streams ≡ sys.shared
      → waiting_of sys.server.client_status ≡ l
      → (sys' : System Conn) × Serves conns sys sys'
  unfolding handle_of
  serve_waiting [] sys conns i e w = (
    sys,
    record {
      steps = no_more;
      none_waits = w;
      still_given = λ c h. h;
      served = λ k c h. absurd (
          let idle =
            accept_pass_unfound sys.server.client_status k (c, connected)
              (accept_pass-none sys.server.client_status w) h in
          ground arith);
    },
  )
  serve_waiting ((id, r) ∷ l) sys conns i e w =
      let m = sys.server.client_status in
      let (x, y) = accept_pass-waiting_of m (id, r) l w in
      let i' = Step-Sound p laws sys _ i (
        accepting conns true (handle_of conns (id, r)) (accept_pass m).1 e
          (dtp_accept_next conns m (id, r) x)) in
      let (sys', s) = serve_waiting l _ conns i' e y in
      (sys', after_first sys sys' conns id r i e x s)

  first_step : (a b c : System Conn) → Step p a b → Reach p b c → Reach p a c
  first_step a b _ s stay = next stay s
  first_step a b _ s (next r t) = next (first_step a b _ s r) t

  Calls-Reach :
      (conns : DtpServerConns) (sys sys' : System Conn)
      → conns.streams ≡ sys.shared
      → Calls conns sys sys'
      → Reach p sys sys'
  Calls-Reach conns sys _ e no_more = stay
  Calls-Reach conns sys sys' e (calls io m h c) =
      first_step sys (after_call sys io m) sys' (accepting conns true io m e h)
        (Calls-Reach conns (after_call sys io m) sys' e c)

  -- From every state that the system reaches, there are blocking calls of `dtp_accept` on the server's
  -- handle, one after the other with nothing in between, that each return a handle. They are steps of the
  -- system, and after them every client that was waiting has been handed out, and none waits.
  pub dtp_accept_serves :
      (start sys : System Conn) (conns : DtpServerConns)
      → Start start
      → Reach p start sys
      → conns.streams ≡ sys.shared
      → (sys' : System Conn) × Calls conns sys sys'
        × Reach p sys sys'
        × ((k : List ℕ) (c : ℕ)
            → get k sys.server.client_status ≡ some (c, connected)
            → elem c sys'.given ≡ true)
        × ((k : List ℕ) (c : ℕ) → get k sys'.server.client_status ≢ some (c, connected))
  dtp_accept_serves start sys conns st r e =
      let (sys', s) = serve_waiting _ sys conns (Reach-Sound p laws start sys st r) e refl in
      (
        sys',
        s.steps,
        Calls-Reach conns sys sys' e s.steps,
        s.served,
        λ k c h.
            let idle =
              accept_pass_unfound sys'.server.client_status k (c, connected)
                (accept_pass-none sys'.server.client_status s.none_waits) h in
            ground arith,
      )
