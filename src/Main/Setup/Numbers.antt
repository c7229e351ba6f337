-- ===== src/Main/Setup/Numbers.antt =====
-- The numbers that the tasks of src/main.rs get.
use nanwei_api_rust.Prelude.{
  ℕ, ◌+◌, ◌<◌, ◌≤◌, ◌≡◌, ◌≢◌, refl, ap, ◌∙◌, true, false, List, Option, none, some, arith,
  Bool-cases, inl, inr, nat_eq, nat_beq_iff, ◌==◌,
}
use nanwei_api_rust.Prelude.Int.{ℤ, pos, int_eq, int_beq_iff}
use nanwei_api_rust.Prelude.Run.{ok}
use nanwei_api_rust.Quiche.{Quiche}
use nanwei_api_rust.Os.{Os}
use nanwei_api_rust.World.{DtpConnection, update}
use nanwei_api_rust.Api.{World, initial, has_sock_entry, has_client}
use nanwei_api_rust.Ffi.Sockets.{DtpServerConns, dtp_socket, dtp_connect}
use nanwei_api_rust.Ffi.Lifecycle.Null.{null_refused}
use nanwei_api_rust.Main.Setup.{
  localhost, listen_on, Task, spawned, opened, started, Tasks, LeavesTables, TaskStep, opens,
  connects, others, sockets_opened, TaskRun, begun, goes_on, all_spawned,
}
use nanwei_api_rust.Main.Setup.Tables.{
  socket_entry, socket_client, socket_number, socket_after, Connects, dtp_connect-Connects,
  listen_on-next,
}

-- The number that a task has.
abbrev pub number_of : Task → Option ℤ
number_of spawned = none
number_of (opened sock) = some sock
number_of (started sock io) = some sock

module _ {Conn : Type 0} where
  -- The tasks when n sockets have been opened, the first with the number k.
  pub record Numbered (k n : ℕ) (s : Tasks Conn) : Type 0 where
    pub next : s.world.api.next_fd ≡ pos (k + n)
    pub fresh : (m : ℕ) → k + n ≤ m → has_client s.world.api (pos m) ≡ false
    pub number :
        (i : ℕ) (sock : ℤ)
        → number_of (s.tasks i) ≡ some sock
        → (m : ℕ) × (sock ≡ pos m) × (k ≤ m) × (m < k + n)
    pub apart :
        (i j : ℕ) (sock : ℤ)
        → number_of (s.tasks i) ≡ some sock
        → number_of (s.tasks j) ≡ some sock
        → i ≡ j
    pub unused :
        (i : ℕ) (sock : ℤ)
        → s.tasks i ≡ opened sock
        → (has_sock_entry s.world.api sock ≡ true) × (has_client s.world.api sock ≡ false)
    pub named :
        (i : ℕ) (sock : ℤ) (io : DtpConnection)
        → s.tasks i ≡ started sock (some io)
        → io.sockid ≡ some sock

  dtp_socket-Numbered :
      (k n i : ℕ) (s : Tasks Conn)
      → Numbered k n s
      → k + n < 2147483647
      → s.tasks i ≡ spawned
      → Numbered k (1 + n) (record {
        world = (dtp_socket s.world).1;
        tasks = update s.tasks i (opened (dtp_socket s.world).0);
      })
  dtp_socket-Numbered k n i s h lt e =
      let fd : (dtp_socket s.world).0 ≡ pos (k + n) = socket_number s.world ∙ h.next in
      record {
        next = socket_after s.world (k + n) h.next lt ∙ ap pos (omega arith);
        fresh = λ m le. socket_client s.world (pos m) ∙ h.fresh m (omega arith);
        number = λ j sock g. elim (Bool-cases (i == j)) [
          | inl y ↦ (k + n, ground arith, omega arith, omega arith)
          | inr y ↦ let (m, a, b, c) = h.number j sock (rw y at g) in (m, a, b, omega arith)
        ];
        apart = λ j l sock g g'. ground (
          arith,
          fd,
          nat_beq_iff i j,
          nat_beq_iff i l,
          h.apart j l sock,
          h.number j sock,
          h.number l sock,
        );
        unused = λ j sock g. elim (Bool-cases (i == j)) [
          | inl y ↦
              let now : sock ≡ pos (k + n) = ground arith in
              rw now (
                socket_entry s.world (pos (k + n))
                    ∙ ground (arith, h.next, int_beq_iff s.world.api.next_fd (pos (k + n))),
                socket_client s.world (pos (k + n)) ∙ h.fresh (k + n) (omega arith),
              )
          | inr y ↦
              let (a, b) = h.unused j sock (rw y at g) in
              (socket_entry s.world sock ∙ ground arith, socket_client s.world sock ∙ b)
        ];
        named = λ j sock io g. ground (arith, h.named j sock io);
      }

  dtp_connect-Numbered :
      (k n i : ℕ) (s : Tasks Conn) (sock : ℤ) (w : World Conn) (o : Option DtpConnection)
      → Numbered k n s
      → s.tasks i ≡ opened sock
      → Connects s.world w sock o
      → Numbered k n (record { world = w; tasks = update s.tasks i (started sock o) })
  dtp_connect-Numbered k n i s sock w o h e c =
      let mine : number_of (s.tasks i) ≡ some sock = rw e refl in
      let (m₀, at, low, high) = h.number i sock mine in
      record {
        next = c.same_next ∙ h.next;
        fresh = λ m le. c.clients (pos m) (λ x. ground (arith, x, at)) ∙ h.fresh m le;
        number = λ j a g. ground (arith, nat_beq_iff i j, h.number j a, h.number i sock mine);
        apart = λ j l a g g'.
            ground (
              arith,
              nat_beq_iff i j,
              nat_beq_iff i l,
              h.apart j l a,
              h.apart i l a,
              h.apart j i a,
            );
        unused = λ j a g. elim (Bool-cases (i == j)) [
          | inl y ↦ absurd (ground arith)
          | inr y ↦
              let g' : s.tasks j ≡ opened a = rw y at g in
              let (x, z) = h.unused j a g' in
              (
                c.entries a x,
                c.clients a (λ p.
                      ground (arith, nat_beq_iff i j, h.apart i j sock mine (rw (g', p) refl)))
                    ∙ z,
              )
        ];
        named = λ j a io g. ground (arith, h.named j a io, c.sockid io);
      }

  others-Numbered :
      (k n : ℕ) (s : Tasks Conn) (w : World Conn)
      → Numbered k n s
      → LeavesTables s.world w
      → Numbered k n (record s { world = w })
  others-Numbered k n s w h l =
      let none_new : (j : ℤ) → has_client s.world.api j ≡ false → has_client w.api j ≡ false =
        λ j e. elim (Bool-cases (has_client w.api j)) [
          | inl y ↦ absurd (let y' = l.clients j y in ground arith)
          | inr y ↦ y
        ] in
      record {
        next = l.next ∙ h.next;
        fresh = λ m le. none_new (pos m) (h.fresh m le);
        number = h.number;
        apart = h.apart;
        unused = λ i sock e. let (a, b) = h.unused i sock e in (rw l.entries a, none_new sock b);
        named = h.named;
      }

  step-Numbered :
      (q : Quiche Conn) (k n : ℕ) (s s' : Tasks Conn)
      → Numbered k n s
      → (t : TaskStep q s s') → k + sockets_opened t n ≤ 2147483647
      → Numbered k (sockets_opened t n) s'
  step-Numbered q k n s _ h (opens i e) le = dtp_socket-Numbered k n i s h (omega arith) e
  step-Numbered q k n s _ h (connects i sock os config r e x) le =
      dtp_connect-Numbered k n i s sock r.0 r.1 h e
        (dtp_connect-Connects q os s.world sock localhost (pos 4433) config r.0 r.1 x)
  step-Numbered q k n s _ h (others w l) le = others-Numbered k n s w h l

  count_grows :
      (q : Quiche Conn) (n : ℕ) (s s' : Tasks Conn) (t : TaskStep q s s') → n ≤ sockets_opened t n
  count_grows q n s _ (opens i e) = omega arith
  count_grows q n s _ (connects i sock os config r e x) = omega arith
  count_grows q n s _ (others w l) = omega arith

  run-Numbered :
      (q : Quiche Conn) (k : ℕ) (s : Tasks Conn) (n : ℕ) (s' : Tasks Conn)
      → Numbered k 0 s
      → TaskRun q s n s'
      → k + n ≤ 2147483647
      → Numbered k n s'
  run-Numbered q k s _ _ h begun le = h
  run-Numbered q k s _ s' h (goes_on {n} {a} {b} r t) le =
      step-Numbered q k n a s' (run-Numbered q k s n a h r (omega (arith, count_grows q n a s' t)))
        t le

  start-Numbered :
      (w : World Conn)
      → w.api.next_fd ≡ pos 1
      → ((k : ℤ) → has_client w.api k ≡ false)
      → Numbered 1 0 (all_spawned w)
  start-Numbered w n c = record {
    next = n;
    fresh = λ m le. c (pos m);
    number = λ i sock g. absurd (ground arith);
    apart = λ i j sock g g'. absurd (ground arith);
    unused = λ i sock g. absurd (ground arith);
    named = λ i sock io g. absurd (ground arith);
  }

  opened_not_null :
      (q : Quiche Conn) (os : Os Conn) (w w' : World Conn) (sock : ℤ) (ip : List ℕ) (port : ℤ)
      (config : ℕ)
      → (has_sock_entry w.api sock ≡ true) × (has_client w.api sock ≡ false)
      → dtp_connect q os w sock ip port (some config) ≢ ok (w', none)
  opened_not_null q os w w' sock ip port config (a, b) h =
      let (r, _) = null_refused q os w w' sock ip port (some config) h in ground arith

  -- From tables as they are at the start: once the calls of `dtp_bind` and `dtp_listen` in `main` have
  -- returned, the tasks of the clients run at the same time, in any order, next to whatever keeps the
  -- entries of the sockets and adds no clients, and open less than 2^31 - 1 sockets. Then no two tasks
  -- ever have the same number, and none has the server's; the handle of a task names the task's own
  -- socket; and when a task with a configuration calls `dtp_connect` on its socket, the result is not
  -- null.
  pub tasks_apart :
      (q : Quiche Conn) (os : Os Conn) (w w₁ : World Conn) (config : ℕ) (server : ℤ)
      (conns : Option DtpServerConns) (n : ℕ) (s : Tasks Conn)
      → w.api ≡ initial
      → listen_on os w config ≡ ok (w₁, (server, conns))
      → TaskRun q (all_spawned w₁) n s
      → n < 2147483647
      → ((i j : ℕ) (a : ℤ)
          → number_of (s.tasks i) ≡ some a
          → number_of (s.tasks j) ≡ some a
          → i ≡ j)
        × ((i : ℕ) → number_of (s.tasks i) ≢ some server)
        × ((i : ℕ) (a : ℤ) (io : DtpConnection)
            → s.tasks i ≡ started a (some io)
            → io.sockid ≡ some a)
        × ((i : ℕ) (a : ℤ) (os' : Os Conn) (config' : ℕ) (w' : World Conn)
            → s.tasks i ≡ opened a
            → dtp_connect q os' s.world a localhost (pos 4433) (some config') ≢ ok (w', none))
  tasks_apart q os w w₁ config server conns n s e l r lt =
      let (zero_, next, none_yet) = listen_on-next os w w₁ config server conns l e in
      let h =
        run-Numbered q 1 (all_spawned w₁) n s (start-Numbered w₁ next none_yet) r (omega arith) in
      (
        h.apart,
        λ i g. let (m, at, low, _) = h.number i server g in ground arith,
        h.named,
        λ i a os' config' w' g.
            opened_not_null q os' s.world w' a localhost (pos 4433) config' (h.unused i a g),
      )
