-- ===== src/Tests/Starts.antt =====
-- Two tasks of src/main.rs that get their sockets before one of them connects.
use nanwei_api_rust.Prelude.{ℕ, ◌≡◌, ◌≢◌, refl, [], Option, none, some, arith}
use nanwei_api_rust.Prelude.Int.{ℤ, pos, int_eq}
use nanwei_api_rust.Prelude.Map.{get, insert, remove}
use nanwei_api_rust.Prelude.Run.{ok}
use nanwei_api_rust.Prelude.Text.{is_utf8}
use nanwei_api_rust.Os.{Os}
use nanwei_api_rust.World.{DtpConnection, update}
use nanwei_api_rust.Api.{World, initial, create_udp_fd}
use nanwei_api_rust.Client.{connect, send_first}
use nanwei_api_rust.Server.Create.{bind, set_config}
use nanwei_api_rust.Ffi.Sockets.{
  DtpServerConns, dtp_socket, dtp_bind, bound, add_server, dtp_listen, start_server, dtp_connect,
  client_started, start_client,
}
use nanwei_api_rust.Main.Setup.{
  localhost, listen_on, Task, opened, started, Tasks, opens, connects, TaskRun, begun, goes_on,
  all_spawned,
}
use nanwei_api_rust.Main.Setup.Numbers.{number_of, tasks_apart}
use nanwei_api_rust.Tests.Model.{Link, link, library, system, value_or}

abbrev before : World Link
before = record { conn = λ r. link; streams = λ r. []; api = initial; next_ref = 0 }

abbrev nothing : World Link × (ℤ × Option DtpServerConns)
nothing = (before, (pos 0, none))

abbrev listening : World Link × (ℤ × Option DtpServerConns)
listening = value_or nothing (listen_on system before 8)

listen_on_returns : listen_on system before 8 ≡ ok (listening.0, (listening.1.0, listening.1.1))
unfolding listen_on dtp_socket create_udp_fd dtp_bind bound add_server bind dtp_listen start_server
    set_config get insert remove is_utf8
listen_on_returns = refl

-- After the first and the second task have their sockets.
abbrev one_opened : Tasks Link
one_opened = record {
  world = (dtp_socket listening.0).1;
  tasks = update (λ i. Task.spawned) 0 (opened (dtp_socket listening.0).0);
}

abbrev two_opened : Tasks Link
two_opened = record {
  world = (dtp_socket one_opened.world).1;
  tasks = update one_opened.tasks 1 (opened (dtp_socket one_opened.world).0);
}

abbrev connected : World Link × Option DtpConnection
connected =
    value_or (two_opened.world, none)
      (dtp_connect library system two_opened.world (dtp_socket one_opened.world).0 localhost
        (pos 4433) (some 9))

dtp_connect_returns :
    dtp_connect library system two_opened.world
      (dtp_socket one_opened.world).0
      localhost
      (pos 4433)
      (some 9)
    ≡ ok connected
unfolding dtp_connect listen_on dtp_socket create_udp_fd dtp_bind bound add_server bind dtp_listen
    start_server set_config get insert remove is_utf8 client_started start_client connect send_first
dtp_connect_returns = refl

abbrev second_connected : Tasks Link
second_connected = record {
  world = connected.0;
  tasks = update two_opened.tasks 1 (started (dtp_socket one_opened.world).0 connected.1);
}

run : TaskRun library (all_spawned listening.0) 2 second_connected
run =
    goes_on (goes_on (goes_on begun (opens 0 refl)) (opens 1 refl)) (
      connects 1 (dtp_socket one_opened.world).0 system (some 9) connected refl dtp_connect_returns)

tasks_apart_example :
    ((i j : ℕ) (a : ℤ)
      → number_of (second_connected.tasks i) ≡ some a
      → number_of (second_connected.tasks j) ≡ some a
      → i ≡ j)
    × ((i : ℕ) → number_of (second_connected.tasks i) ≢ some listening.1.0)
    × ((i : ℕ) (a : ℤ) (io : DtpConnection)
        → second_connected.tasks i ≡ started a (some io)
        → io.sockid ≡ some a)
    × ((i : ℕ) (a : ℤ) (os' : Os Link) (config' : ℕ) (w' : World Link)
        → second_connected.tasks i ≡ opened a
        → dtp_connect library os' second_connected.world a localhost (pos 4433) (some config')
          ≢ ok (w', none))
tasks_apart_example =
    tasks_apart library system before listening.0 8 listening.1.0 listening.1.1 2 second_connected
      refl listen_on_returns run (omega arith)
