-- ===== src/Tests/Sockets.antt =====
-- Examples of the theorems on the life of a socket.
use nanwei_api_rust.Prelude.{
  ℕ, ◌≡◌, ◌≢◌, ◌↔◌, refl, true, false, List, [], ◌∷◌, Option, none, some, arith, ◌==◌, ◌||◌,
}
use nanwei_api_rust.Prelude.Int.{ℤ, pos, negsuc, int_eq}
use nanwei_api_rust.Prelude.Map.{get, insert}
use nanwei_api_rust.Prelude.Run.{ok, panicked}
use nanwei_api_rust.Prelude.Text.{is_utf8}
use nanwei_api_rust.Os.{Os}
use nanwei_api_rust.World.{DtpConnection}
use nanwei_api_rust.Api.{
  World, initial, create_udp_fd, DtpClient, DtpServer, has_client, has_server, has_sock_entry,
}
use nanwei_api_rust.Api.Invariant.{Inv, initial-Inv}
use nanwei_api_rust.Client.{connect, send_first}
use nanwei_api_rust.Server.Create.{bind, ServerArgs, get_run_args}
use nanwei_api_rust.Ffi.Sockets.{
  dtp_socket, dtp_socket_close, dtp_bind, bound, add_server, dtp_listen, dtp_connect,
  client_started, start_client, DtpServerConns,
}
use nanwei_api_rust.Ffi.Close.{Closed, dtp_close}
use nanwei_api_rust.Ffi.Lifecycle.{Reach, Step, Reach-Inv}
use nanwei_api_rust.Ffi.Lifecycle.Servers.{dtp_socket_fresh, bind_then_listen}
use nanwei_api_rust.Ffi.Lifecycle.Clients.{
  bind_over_client, close_then_socket_close, dtp_connect-dtp_close,
}
use nanwei_api_rust.Ffi.Lifecycle.Null.{refused, dtp_connect_null_iff}
use nanwei_api_rust.Tests.Model.{Link, link, library, system, value_or}

abbrev before : World Link
before = record { conn = λ r. link; streams = λ r. []; api = initial; next_ref = 0 }

-- One socket, with the number 0.
abbrev one_socket : World Link
one_socket = (dtp_socket before).1

-- "::"
abbrev address : List ℕ
address = 58 ∷ 58 ∷ []

abbrev serving : World Link
serving = (value_or (pos 0, one_socket) (dtp_bind system one_socket (pos 0) address (pos 4433))).1

bind_returns : dtp_bind system one_socket (pos 0) address (pos 4433) ≡ ok (pos 1, serving)
unfolding dtp_bind dtp_socket create_udp_fd bound add_server bind get insert is_utf8
bind_returns = refl

Reach-Inv_example : Inv serving.api
Reach-Inv_example = Reach-Inv library before serving refl (
    Reach.next (Reach.next Reach.here (Step.socket (λ e. ground (arith, e))))
      (Step.bind system (pos 0) address (pos 4433) (pos 1) bind_returns))

bind_then_listen_example :
    (server : DtpServer) × (conns : DtpServerConns) × (args : ServerArgs) × let (w'', listened) =
        dtp_listen serving (pos 0) 77 in
      (listened ≡ some conns)
      × (conns.sockid ≡ pos 0)
      × (get (pos 0) w''.api.server_handles ≡ some server)
      × (get_run_args server ≡ ok args)
      × (args.config ≡ 77)
      × (args.shared_streams ≡ conns.streams)
      × (dtp_listen w'' (pos 0) 78 ≡ (w'', none))
      × (dtp_bind system w'' (pos 0) address (pos 1) ≡ ok (negsuc 0, w''))
      × (dtp_socket_close w'' (pos 0) ≡ (negsuc 0, w''))
bind_then_listen_example =
    bind_then_listen system system one_socket serving (pos 0) address address (pos 4433) (pos 1) 77
      78 bind_returns

dtp_socket_fresh_example :
    let (fd, w') = dtp_socket before in
    (has_sock_entry initial fd ≡ false)
    × ((k : ℤ) → has_sock_entry w'.api k ≡ (fd == k) || has_sock_entry initial k)
    × (has_client w'.api fd ≡ false)
    × (has_server w'.api fd ≡ false)
    × ((k : ℤ) → has_client w'.api k ≡ has_client initial k)
    × ((k : ℤ) → has_server w'.api k ≡ has_server initial k)
dtp_socket_fresh_example = dtp_socket_fresh before initial-Inv

-- The handle of a client on the number 0.
abbrev handle : DtpConnection
handle = record {
  is_server_side = false;
  conn = 0;
  waker = 2;
  sockid = some (pos 0);
  pconns = none;
  conn_id = none;
}

abbrev nothing : World Link × Option DtpConnection
nothing = (one_socket, none)

abbrev connected_world : World Link
connected_world =
    (value_or nothing (dtp_connect library system one_socket (pos 0) address (pos 4433) (some 9))).0

connect_returns :
    dtp_connect library system one_socket (pos 0) address (pos 4433) (some 9)
    ≡ ok (connected_world, some handle)
unfolding dtp_connect dtp_socket create_udp_fd client_started start_client connect send_first get
    insert is_utf8
connect_returns = refl

abbrev join : DtpClient → Link → Option Link
join client c = some c

abbrev the_client : DtpClient
the_client = record { conn = 0; socket = 1; waker = 2; sockid = pos 0 }

-- The same with the client's thread in the tables.
abbrev clients_world : World Link
clients_world = record before {
  api = record initial {
    sock_map = (pos 0, some 1) ∷ [];
    client_handles = (pos 0, the_client) ∷ [];
    next_fd = pos 1;
  };
}

clients_world_facts :
    (has_sock_entry clients_world.api (pos 0) ≡ true)
    × (has_server clients_world.api (pos 0) ≡ false)
    × (get (pos 0) clients_world.api.client_map ≡ none)
    × (get (pos 0) clients_world.api.client_handles ≡ some the_client)
    × (has_client clients_world.api (pos 0) ≡ true)
unfolding get
clients_world_facts = (refl, refl, refl, refl, refl)

close_then_socket_close_example :
    (w' : World Link) × (dtp_close library (λ w. true) join false clients_world (some handle)
      ≡ ok (record { ret = pos 1; freed = true; woken = some 2; world = w' }))
    × (has_client w'.api (pos 0) ≡ false)
    × ((dtp_socket_close w' (pos 0)).0 ≡ pos 0)
close_then_socket_close_example =
    close_then_socket_close library (λ w. true) join false clients_world handle (pos 0) the_client
      (record link { closed = true }) refl refl clients_world_facts.0 clients_world_facts.1
      clients_world_facts.2 clients_world_facts.3 refl refl refl refl refl

dtp_connect-dtp_close_example :
    (r : Closed Link) × (dtp_close library
        (λ w. true)
        join
        false
        (record connected_world { conn = λ r. record link { closed = true } })
        (some handle)
      ≡ ok r)
    × (r.ret ≡ pos 1)
    × (r.freed ≡ true)
    × ((dtp_socket_close r.world (pos 0)).0 ≡ negsuc 0)
    × (dtp_connect library system r.world (pos 0) address (pos 1) (some 10) ≡ ok (r.world, none))
dtp_connect-dtp_close_example =
    dtp_connect-dtp_close library (λ w. true) join false system system one_socket connected_world
      (λ r. record link { closed = true }) (pos 0) address address (pos 4433) (pos 1) (some 9)
      (some 10) handle connect_returns refl

-- A system that reads no address.
abbrev no_addresses : Os Link
no_addresses = record system { parse_addr = λ ip port. none }

dtp_connect_null_iff_example :
    ((w' : World Link)
      → (dtp_connect library no_addresses one_socket (pos 0) address (pos 1) (some 10)
          ≡ ok (w', none))
        ↔ ((refused library one_socket (pos 0) (some 10) ≡ true) × (w' ≡ one_socket)))
    × (refused library one_socket (pos 0) (some 10) ≡ false
        → ((x : DtpClient × Link)
            → connect library no_addresses address (pos 1) (pos 0) one_socket.next_ref ≢ ok x)
        → dtp_connect library no_addresses one_socket (pos 0) address (pos 1) (some 10) ≡ panicked)
dtp_connect_null_iff_example =
    dtp_connect_null_iff library no_addresses one_socket (pos 0) address (pos 1) (some 10)

abbrev the_server : DtpServer
the_server = record {
  socket = 0;
  waker = 1;
  shared_streams = 2;
  config = none;
  sockid = some (pos 0);
}

bind_over_facts : (is_utf8 address ≡ true) × (bind system address (pos 1) (pos 0) 0 ≡ ok the_server)
unfolding is_utf8 bind
bind_over_facts = (refl, refl)

bind_over_client_example :
    (w' : World Link) × (dtp_bind system clients_world (pos 0) address (pos 1) ≡ ok (pos 1, w'))
    × (has_client w'.api (pos 0) ≡ true)
    × (has_server w'.api (pos 0) ≡ true)
    × (get (pos 0) w'.api.sock_map ≡ some (some 0))
bind_over_client_example =
    bind_over_client library system clients_world (pos 0) address (pos 1) the_server
      clients_world_facts.0 clients_world_facts.4 clients_world_facts.1 bind_over_facts.0
      bind_over_facts.1
