-- ===== src/Tests/Texts.antt =====
-- Examples of the theorems on src/main.rs.
use nanwei_api_rust.Prelude.{ℕ, ◌≡◌, ◌≢◌, refl, true, false, List, [], ◌∷◌, none, some, arith}
use nanwei_api_rust.Prelude.Int.{ℤ, pos, negsuc}
use nanwei_api_rust.Prelude.Run.{Run, ok}
use nanwei_api_rust.Prelude.Text.{is_utf8}
use nanwei_api_rust.Main.{dtp_util_recv, send_loop, recv_retry, received_text}
use nanwei_api_rust.Main.Frames.{idle, dtp_util_recv_enough}
use nanwei_api_rust.World.{SharedStreams, connected, accepted}
use nanwei_api_rust.Ffi.Sockets.{DtpServerConns}
use nanwei_api_rust.Ffi.Accept.{handle_of, dtp_accept, waiting, returned}
use nanwei_api_rust.Main.Tasks.{
  processed, Served, serve_client, Asked, run_client, close_until, accept_clients,
}
use nanwei_api_rust.Main.Tasks.Conversation.{then_gets, serve_client-run_client}
use nanwei_api_rust.Main.Tasks.AllAccepted.{accept_clients_all, dtp_accept_never_null}

abbrev no_luck : List (ℤ × List ℕ)
no_luck = idle 21 []

dtp_util_recv_enough_example : (r : Run (List ℕ)) × (dtp_util_recv true no_luck ≡ some r)
dtp_util_recv_enough_example = dtp_util_recv_enough true no_luck (omega arith)

seven_is_utf8 : is_utf8 (b'7' ∷ []) ≡ true
unfolding is_utf8
seven_is_utf8 = refl

no_luck_fruitless : dtp_util_recv false no_luck ≡ some (ok [])
unfolding dtp_util_recv recv_retry received_text
no_luck_fruitless = refl

resent : send_loop (negsuc 41 ∷ pos 2 ∷ []) ≡ some (pos 2)
unfolding send_loop
resent = refl

sent_once : send_loop (pos 2 ∷ []) ≡ some (pos 2)
unfolding send_loop
sent_once = refl

closes : close_until (negsuc 0 ∷ pos 1 ∷ []) ≡ some tt
unfolding close_until
closes = refl

-- Three empty results and the text "7"; a call that finds nothing comes first.
serve_client-run_client_example :
    (served : Served) × (asked : Asked) × (serve_client false true
        (then_gets (no_luck ∷ []) 3 asked.payload [])
        (negsuc 41 ∷ pos 2 ∷ [])
        (negsuc 0 ∷ pos 1 ∷ [])
      ≡ some (ok served))
    × (run_client false true
          (b'7' ∷ [])
          (pos 2 ∷ [])
          (then_gets [] 0 served.payload (0 ∷ []))
          (pos 1)
        ≡ some (ok asked))
    × (served.received ≡ b'7' ∷ [])
    × (asked.result ≡ processed (b'7' ∷ []))
serve_client-run_client_example =
    serve_client-run_client false false b'7' [] (no_luck ∷ []) [] 3 0 [] (0 ∷ [])
      (negsuc 41 ∷ pos 2 ∷ []) (pos 2 ∷ []) (negsuc 0 ∷ pos 1 ∷ []) (pos 2) (pos 2) (pos 1)
      seven_is_utf8 (omega arith) (omega arith) (no_luck_fruitless, tt) tt resent sent_once closes

-- Two clients wait, and one has been accepted.
abbrev three_clients : SharedStreams
three_clients = (1 ∷ [], (4, connected)) ∷ (2 ∷ [], (5, accepted)) ∷ (3 ∷ [], (6, connected)) ∷ []

abbrev conns : DtpServerConns
conns = record { streams = 2; waker = 1; sockid = pos 0 }

accept_clients_all_example :
    (m' : SharedStreams) × (accept_clients conns 2 three_clients
      ≡ (handle_of conns (1 ∷ [], 4) ∷ handle_of conns (3 ∷ [], 6) ∷ [], m'))
    × (dtp_accept (some conns) true (m' ∷ []) ≡ waiting)
accept_clients_all_example = accept_clients_all conns three_clients

dtp_accept_never_null_example :
    dtp_accept (some conns) true (three_clients ∷ []) ≢ returned none (some three_clients)
dtp_accept_never_null_example =
    dtp_accept_never_null conns (three_clients ∷ []) (some three_clients)
