-- ===== src/Tests/Packets.antt =====
-- Examples of the theorems on the loop of the server.
use nanwei_api_rust.Prelude.{
  ℕ, ◌≤◌, ◌≡◌, refl, false, List, [], ◌∷◌, ◌++◌, none, some, arith, bytes_eq,
}
use nanwei_api_rust.Prelude.Map.{get, insert}
use nanwei_api_rust.Prelude.Run.{Run, ok, Always}
use nanwei_api_rust.Quiche.{Quiche}
use nanwei_api_rust.Server.Token.{prefix, validate_token, validate_addr}
use nanwei_api_rust.Server.Partial.{handle_all_writable, handle_writable}
use nanwei_api_rust.Os.{would_block}
use nanwei_api_rust.Outgoing.{Arrival, arrived, failed}
use nanwei_api_rust.Server.Packet.{
  Client, Server, Env, continue_read, read_packet, read_header, find_client, new_client,
  check_token, admit, add_client, process, feed, serve, read_loop,
}
use nanwei_api_rust.Server.Packet.Tracked.{Tracked}
use nanwei_api_rust.Server.Packet.Loop.{Tracked-read_loop}
use nanwei_api_rust.Server.Packet.Grants.{Granted}
use nanwei_api_rust.Server.Packet.NewClients.{read_packet-Granted}
use nanwei_api_rust.Server.Collect.Kept.{Collected, collect_lem}
use mathlib.Core.List.{Memᴰ}
use nanwei_api_rust.Client.Loop.{packets, timed_out}
use nanwei_api_rust.Server.Loop.{poll_timeout, server_loop}
use nanwei_api_rust.Server.Loop.Timeout.{IsUpTo, poll_timeout_least}
use nanwei_api_rust.Server.Loop.Runs.{server_loop_ends}
use nanwei_api_rust.Tests.Model.{
  Link, here, library, keeps_ids, pending, sends_shrink, header, surroundings, accepts_id,
  no_clients, value_or,
}

abbrev hello : List ℕ
hello = prefix ++ (127 ∷ 0 ∷ 0 ∷ 1 ∷ 5 ∷ 6 ∷ [])

abbrev quiet : Env Link
quiet = surroundings false

no_clients-Tracked : Tracked library no_clients
unfolding get
no_clients-Tracked = record {
  unique = tt;
  own_id = λ k cl h. absurd (ground arith);
  listed = λ k cl h. absurd (ground arith);
  known = λ k cl h. absurd (ground arith);
}

-- The server after the first packet of a client.
abbrev greeted : Server Link
greeted =
    (value_or (continue_read, no_clients) (read_packet library quiet no_clients (hello, here))).1

abbrev new_partner : Client
new_partner = record { conn = 0; partial_responses = [] }

greeting_returns : read_packet library quiet no_clients (hello, here) ≡ ok (continue_read, greeted)
unfolding read_packet read_header find_client new_client check_token admit add_client process feed
    serve get insert validate_token validate_addr handle_all_writable handle_writable
greeting_returns = refl

greeted_client : get (1 ∷ 2 ∷ []) greeted.clients ≡ some new_partner
unfolding read_packet read_header find_client new_client check_token admit add_client process feed
    serve get insert validate_token validate_addr handle_all_writable handle_writable
greeted_client = refl

no_client_before : get (1 ∷ 2 ∷ []) no_clients.clients ≡ none
unfolding get
no_client_before = refl

read_packet-Granted_example : Granted library quiet (header hello) here (1 ∷ 2 ∷ []) greeted
read_packet-Granted_example =
    read_packet-Granted library quiet no_clients greeted (hello, here) (header hello) continue_read
      (1 ∷ 2 ∷ []) new_partner refl greeting_returns no_client_before greeted_client

-- A client's packet and one that `recv` refuses.
abbrev datagrams : List Arrival
datagrams = arrived (hello, here) ∷ arrived ([], here) ∷ failed would_block ∷ []

abbrev after_both : Server Link
after_both = value_or no_clients (read_loop library quiet no_clients datagrams)

both_return : read_loop library quiet no_clients datagrams ≡ ok after_both
unfolding read_loop read_packet read_header find_client new_client check_token admit add_client
    process feed serve get insert validate_token validate_addr handle_all_writable handle_writable
both_return = refl

after_both-Tracked : Tracked library after_both
after_both-Tracked =
    Tracked-read_loop library keeps_ids quiet (accepts_id false) no_clients after_both datagrams
      no_clients-Tracked both_return

known_client : get (1 ∷ 2 ∷ []) after_both.clients ≡ some new_partner
unfolding read_loop read_packet read_header find_client new_client check_token admit add_client
    process feed serve get insert validate_token validate_addr handle_all_writable handle_writable
known_client = refl

collect_lem_example : Collected library quiet after_both
collect_lem_example = collect_lem library quiet after_both after_both-Tracked

server_loop_ends_example :
    (n : ℕ) × (r : Run (Server Link)) × (((m : ℕ)
        → n ≤ m
        → server_loop library quiet m no_clients (packets datagrams ∷ timed_out ∷ []) ≡ some r)
      × Always (Tracked library) r)
server_loop_ends_example =
    server_loop_ends library keeps_ids quiet (accepts_id false) pending sends_shrink
      (packets datagrams ∷ timed_out ∷ []) no_clients no_clients-Tracked

-- Every connection has a timeout.
abbrev hurried : Quiche Link
hurried = record library { timeout = λ c. some 30 }

poll_timeout_least_example :
    ((k : List ℕ) (client : Client) (t : ℕ)
      → get k after_both.clients ≡ some client
      → hurried.timeout (after_both.conn client.conn) ≡ some t
      → IsUpTo hurried quiet (poll_timeout hurried quiet after_both.conn after_both.clients) t)
    × ((w : ℕ)
        → poll_timeout hurried quiet after_both.conn after_both.clients ≡ some w
        → (k : List ℕ) × (client : Client) × Memᴰ (k, client) after_both.clients
          × (hurried.timeout (after_both.conn client.conn) ≡ some w))
poll_timeout_least_example = poll_timeout_least hurried quiet after_both.conn after_both.clients
