-- ===== src/Api/Invariant.antt =====
-- What holds of the tables of `DtpApi` between two calls.
use nanwei_api_rust.Prelude.{◌<◌, ◌≡◌, ◌≢◌, refl, true, false, none, some, is_some, arith}
use nanwei_api_rust.Prelude.Int.{ℤ, pos, negsuc, int_eq, int_beq_iff}
use nanwei_api_rust.Prelude.Map.{get, get-insert}
use nanwei_api_rust.Api.{
  DtpServer, DtpApi, initial, next_i32, create_udp_fd, has_server, has_client, has_sock_entry,
  has_running_server,
}

-- The numbers that have been given out, when the next one is `next`.
abbrev pub IsIssued : ℤ → ℤ → Type 0
IsIssued (pos n) (pos k) = k < n
IsIssued _ _ = ⊥

-- A counter that has not wrapped around.
abbrev pub IsCounting : ℤ → Type 0
IsCounting (pos n) = n < 2147483648
IsCounting (negsuc n) = ⊥

-- The counter has not wrapped around; only numbers that were given out have an entry; a number in use by a client or a server has one; a
-- server is either bound or running; a running server has a configuration; and what `server_shared_map`
-- and `server_waker_map` hold belongs to a running server.
pub record Inv (a : DtpApi) : Type 0 where
  pub counting : IsCounting a.next_fd
  pub issued : (k : ℤ) → has_sock_entry a k ≡ true → IsIssued a.next_fd k
  pub clients : (k : ℤ) → has_client a k ≡ true → has_sock_entry a k ≡ true
  pub servers : (k : ℤ) → has_server a k ≡ true → has_sock_entry a k ≡ true
  pub one_server :
      (k : ℤ) → is_some (get k a.server_map) ≡ true → is_some (get k a.server_handles) ≡ false
  pub configured :
      (k : ℤ) (s : DtpServer) → get k a.server_handles ≡ some s → is_some s.config ≡ true
  pub shared : (k : ℤ) → has_running_server a k ≡ is_some (get k a.server_handles)
  pub wakers : (k : ℤ) → is_some (get k a.server_waker_map) ≡ is_some (get k a.server_handles)

pub initial-Inv : Inv initial
unfolding get
initial-Inv = record {
  counting = omega arith;
  issued = λ k h. cc;
  clients = λ k h. cc;
  servers = λ k h. cc;
  one_server = λ k h. cc;
  configured = λ k s h. cc;
  shared = λ k. refl;
  wakers = λ k. refl;
}

IsIssued-next : (next k : ℤ) → next ≢ pos 2147483647 → IsIssued next k → IsIssued (next_i32 next) k
IsIssued-next (pos n) (pos k) h i = ground (arith, h)
IsIssued-next (pos n) (negsuc k) h i = absurd i
IsIssued-next (negsuc n) k h i = absurd i

IsIssued-self : (next : ℤ) → IsCounting next → next ≢ pos 2147483647 → IsIssued (next_i32 next) next
IsIssued-self (pos n) c h = ground (arith, h)
IsIssued-self (negsuc n) c h = absurd c

IsCounting-next : (next : ℤ) → IsCounting next → next ≢ pos 2147483647 → IsCounting (next_i32 next)
IsCounting-next (pos n) c h = ground (arith, h)
IsCounting-next (negsuc n) c h = absurd c

pub create_udp_fd-Inv : (a : DtpApi) → a.next_fd ≢ pos 2147483647 → Inv a → Inv (create_udp_fd a).0
unfolding create_udp_fd
create_udp_fd-Inv a h i = record {
  counting = IsCounting-next a.next_fd i.counting h;
  issued = λ k e. ground (
    arith,
    get-insert a.next_fd k none a.sock_map,
    int_beq_iff a.next_fd k,
    i.issued k,
    IsIssued-next a.next_fd k h,
    IsIssued-self a.next_fd i.counting h,
  );
  clients = λ k e. ground (arith, get-insert a.next_fd k none a.sock_map, i.clients k);
  servers = λ k e. ground (arith, get-insert a.next_fd k none a.sock_map, i.servers k);
  one_server = i.one_server;
  configured = i.configured;
  shared = i.shared;
  wakers = i.wakers;
}
