-- ===== src/Tests/Systems.antt =====
-- Examples of the theorems on the system: a client's packet, `dtp_accept`, a timeout that closes the
-- connection, and `dtp_close`.
use nanwei_api_rust.Prelude.{
  ℕ, ◌≢◌, ◌≡◌, refl, true, false, List, [], ◌∷◌, ◌++◌, none, some, is_some, arith, bytes_eq,
}
use nanwei_api_rust.Prelude.Int.{pos}
use nanwei_api_rust.Prelude.Map.{get, insert}
use nanwei_api_rust.Prelude.Run.{ok}
use nanwei_api_rust.Quiche.{Quiche, IdLaws}
use nanwei_api_rust.World.{accepted, connected, SharedStreams}
use nanwei_api_rust.Api.{initial}
use nanwei_api_rust.Ffi.Sockets.{DtpServerConns}
use nanwei_api_rust.Ffi.Accept.{handle_of, returned, dtp_accept, accept_loop, accept_pass}
use nanwei_api_rust.Ffi.Close.{Closed, dtp_close}
use nanwei_api_rust.Server.Token.{prefix, validate_token, validate_addr}
use nanwei_api_rust.Server.Partial.{handle_all_writable, handle_writable}
use nanwei_api_rust.Server.Packet.{
  Client, Server, continue_read, read_packet, read_header, find_client, new_client, check_token,
  admit, add_client, process, feed, serve,
}
use nanwei_api_rust.Server.Collect.{collect, time_out}
use nanwei_api_rust.System.{
  System, Program, Step, Start, Reach, stay, next, packet, accepting, expired, world_of, with_world,
}
use nanwei_api_rust.System.Effect.{Lawful}
use nanwei_api_rust.System.Sound.{Sound, elem}
use nanwei_api_rust.System.Preserve.{Reach-Sound}
use nanwei_api_rust.System.Lifecycle.{Moves, Step-Moves, event, stages}
use nanwei_api_rust.System.Service.{Calls, dtp_accept_serves}
use nanwei_api_rust.System.Growth.{client_status_keeps}
use nanwei_api_rust.System.Outcomes.{collect_reachable, dtp_close-collect}
use nanwei_api_rust.Tests.Model.{
  Link, here, library, keeps_ids, surroundings, accepts_id, no_clients, value_or,
}

-- A timeout closes the connection.
abbrev impatient : Quiche Link
impatient = record library { on_timeout = λ c. record c { closed = true } }

impatient_ids : IdLaws impatient
impatient_ids = record {
  recv_id = keeps_ids.recv_id;
  send_id = keeps_ids.send_id;
  stream_recv_id = keeps_ids.stream_recv_id;
  stream_send_id = keeps_ids.stream_send_id;
  close_id = keeps_ids.close_id;
  on_timeout_id = λ c. refl;
}

abbrev program : Program Link
program = record {
  quiche = impatient;
  env = surroundings false;
  wake = λ w. true;
  join = λ client c. some c;
  debug = false;
  client_send_to = λ outbox d. none;
}

program_laws : Lawful program
program_laws = record {
  ids = impatient_ids;
  accepts = accepts_id false;
  joins = λ client c c' h. ground arith;
}

abbrev listening : System Link
listening = record {
  server = record no_clients { next_conn = 3 };
  shared = 2;
  streams = λ r. [];
  api = initial;
  given = [];
}

listening-Start : Start listening
listening-Start = record {
  no_clients = refl;
  no_status = refl;
  none_given = refl;
  allocated = omega arith;
}

abbrev hello : List ℕ
hello = prefix ++ (127 ∷ 0 ∷ 0 ∷ 1 ∷ 5 ∷ 6 ∷ [])

abbrev greeted : Server Link
greeted =
    (value_or (continue_read, no_clients)
      (read_packet impatient (surroundings false) listening.server (hello, here))).1

abbrev partner : Client
partner = record { conn = 3; partial_responses = [] }

abbrev conns : DtpServerConns
conns = record { streams = 2; waker = 1; sockid = pos 0 }

greeting :
    read_packet impatient (surroundings false) listening.server (hello, here)
    ≡ ok (continue_read, greeted)
unfolding read_packet read_header find_client new_client check_token admit add_client process feed
    serve get insert validate_token validate_addr handle_all_writable handle_writable
greeting = refl

abbrev after_accept : SharedStreams
after_accept = (1 ∷ 2 ∷ [], (3, accepted)) ∷ []

accepts_partner :
    dtp_accept (some conns) true (greeted.client_status ∷ [])
    ≡ returned (some (handle_of conns (1 ∷ 2 ∷ [], 3))) (some after_accept)
unfolding read_packet read_header find_client new_client check_token admit add_client process feed
    serve get insert validate_token validate_addr handle_all_writable handle_writable dtp_accept
    accept_loop accept_pass
accepts_partner = refl

abbrev accepted_system : System Link
accepted_system = record listening {
  server = record greeted { client_status = after_accept };
  given = 3 ∷ [];
}

abbrev greeted_system : System Link
greeted_system = record listening { server = greeted }

greeted_reached : Reach program listening greeted_system
greeted_reached = next stay (packet (hello, here) continue_read greeted greeting)

partner_found : get (1 ∷ 2 ∷ []) accepted_system.server.clients ≡ some partner
unfolding read_packet read_header find_client new_client check_token admit add_client process feed
    serve get insert validate_token validate_addr handle_all_writable handle_writable
partner_found = refl

abbrev expired_system : System Link
expired_system = record accepted_system {
  server =
      time_out impatient (surroundings false) accepted_system.server ((1 ∷ 2 ∷ [], partner) ∷ []);
}

reached : Reach program listening expired_system
unfolding handle_of
reached =
    next
      (next (next stay (packet (hello, here) continue_read greeted greeting))
        (accepting conns true (handle_of conns (1 ∷ 2 ∷ [], 3)) after_accept refl accepts_partner))
      (expired (1 ∷ 2 ∷ []) partner partner_found)

Reach-Sound_example : Sound impatient expired_system
Reach-Sound_example =
    Reach-Sound program program_laws listening expired_system listening-Start reached

collect_reachable_example :
    (s : Server Link) × (collect impatient (surroundings false) expired_system.server ≡ ok s)
    × (s.client_status ≡ expired_system.server.client_status)
collect_reachable_example =
    collect_reachable program program_laws listening expired_system listening-Start reached

accepting_partner : Step program greeted_system accepted_system
unfolding handle_of
accepting_partner =
    accepting conns true (handle_of conns (1 ∷ 2 ∷ [], 3)) after_accept refl accepts_partner

Step-Moves_example :
    Moves (event accepting_partner) (stages greeted_system) (stages accepted_system)
Step-Moves_example =
    Step-Moves program program_laws listening greeted_system accepted_system listening-Start
      greeted_reached accepting_partner

still_there : get (1 ∷ 2 ∷ []) expired_system.server.clients ≡ some partner
unfolding read_packet read_header find_client new_client check_token admit add_client process feed
    serve get insert validate_token validate_addr handle_all_writable handle_writable time_out
still_there = refl

has_closed : (expired_system.server.conn 3).closed ≡ true
unfolding time_out
has_closed = refl

dtp_close-collect_example :
    (r : Closed Link) × (s : Server Link) × (dtp_close impatient
        (λ w. true)
        (λ client c. some c)
        false
        (world_of expired_system)
        (some (handle_of conns (1 ∷ 2 ∷ [], 3)))
      ≡ ok r)
    × (r.ret ≡ pos 1)
    × (collect impatient (surroundings false) (with_world expired_system r.world).server ≡ ok s)
    × (get (1 ∷ 2 ∷ []) s.clients ≡ none)
    × ((k : List ℕ) (other : Client)
        → get k expired_system.server.clients ≡ some other
        → (expired_system.server.conn other.conn).closed ≡ false
        → get k s.clients ≡ some other)
dtp_close-collect_example =
    dtp_close-collect program program_laws listening expired_system conns (1 ∷ 2 ∷ []) partner
      listening-Start reached refl still_there has_closed

has_entry : is_some (get (1 ∷ 2 ∷ []) expired_system.server.client_status) ≡ true
unfolding get time_out
has_entry = refl

client_status_keeps_example : is_some (get (1 ∷ 2 ∷ []) expired_system.server.client_status) ≡ true
client_status_keeps_example =
    client_status_keeps program program_laws listening expired_system expired_system (1 ∷ 2 ∷ [])
      listening-Start reached stay has_entry

dtp_accept_serves_example :
    (sys' : System Link) × Calls conns greeted_system sys'
    × Reach program greeted_system sys'
    × ((k : List ℕ) (c : ℕ)
        → get k greeted_system.server.client_status ≡ some (c, connected)
        → elem c sys'.given ≡ true)
    × ((k : List ℕ) (c : ℕ) → get k sys'.server.client_status ≢ some (c, connected))
dtp_accept_serves_example =
    dtp_accept_serves program program_laws listening greeted_system conns listening-Start
      greeted_reached refl
