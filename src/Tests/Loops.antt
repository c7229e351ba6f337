-- ===== src/Tests/Loops.antt =====
-- Examples of the theorems on the loop of a client and on the message loop.
use nanwei_api_rust.Prelude.{ℕ, ◌≤◌, ◌≡◌, refl, true, List, [], ◌∷◌, Option, none, some}
use nanwei_api_rust.Prelude.Run.{Run, ok}
use nanwei_api_rust.Os.{IoErrorKind, would_block}
use nanwei_api_rust.Outgoing.{Datagram, arrived, failed, flush_conn}
use nanwei_api_rust.Client.Loop.{
  Event, Progress, timed_out, packets, ended, client_read, client_write, client_round, client_loop,
}
use nanwei_api_rust.Client.Loop.Closed.{IsSettled, client_loop-IsSettled, client_loop_enough}
use nanwei_api_rust.Message.{DtpMsg, Answer, recv_msg_loop, send}
use nanwei_api_rust.Message.Answers.{Answered, recv_msg_loop-Answered, channel_of, send_answered}
use nanwei_api_rust.Tests.Model.{Link, link, here, library, reads_fit, pending, sends_shrink}

abbrev open_socket : List Datagram → Datagram → Option IoErrorKind
open_socket outbox d = none

abbrev nothing_else : Link → Link
nothing_else c = c

abbrev shut : Link → Link
shut c = record c { closed = true }

-- A connection with one packet to send.
abbrev busy : Link
busy = record link { queue = (7 ∷ [], here) ∷ [] }

-- A datagram, a timeout, and a wait in which the connection is closed.
abbrev events : List ((Link → Link) × Event)
events =
    (nothing_else, timed_out)
    ∷ (shut, packets (arrived (1 ∷ [], here) ∷ failed would_block ∷ []))
    ∷ []

abbrev first_event : (Link → Link) × Event
first_event = (nothing_else, packets (arrived (5 ∷ [], here) ∷ []))

loop_ends :
    client_loop library open_socket 3 busy [] (first_event ∷ events)
    ≡ some (ok (ended (record link { closed = true }) ((7 ∷ [], here) ∷ [])))
unfolding client_loop client_round client_write client_read flush_conn
loop_ends = refl

client_loop-IsSettled_example :
    IsSettled library open_socket (ended (record link { closed = true }) ((7 ∷ [], here) ∷ []))
client_loop-IsSettled_example =
    client_loop-IsSettled library open_socket 3 busy [] first_event events
      (ended (record link { closed = true }) ((7 ∷ [], here) ∷ [])) loop_ends

client_loop_enough_example :
    (n : ℕ) × (r : Run (Progress Link)) × ((m : ℕ)
      → n ≤ m
      → client_loop library open_socket m busy [] (first_event ∷ events) ≡ some r)
client_loop_enough_example =
    client_loop_enough library open_socket pending sends_shrink (first_event ∷ events) busy []

abbrev messages : List DtpMsg
messages =
    DtpMsg.dtp_send (1 ∷ 2 ∷ []) true 4 100
    ∷ DtpMsg.dtp_recv 4 1000 101
    ∷ DtpMsg.dtp_send_retry
    ∷ DtpMsg.dtp_close true 0 [] 102
    ∷ []

recv_msg_loop-Answered_example :
    (c' : Link) × (answers : List Answer) × (recv_msg_loop library true link messages
      ≡ ok (c', answers))
    × Answered messages answers
recv_msg_loop-Answered_example = recv_msg_loop-Answered library reads_fit messages link

send_answered_example : send (channel_of library link messages) (1 ∷ 2 ∷ []) true 4 100 ≡ ok 2
send_answered_example = send_answered library link (1 ∷ 2 ∷ []) true 4 100 messages
