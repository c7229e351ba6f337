-- ===== src/Client/Loop.antt =====
-- `client_loop` of src/client.rs. Logging is left out. Between two rounds, while the loop waits in
-- `poll`, the functions of src/ffi.rs may work on the connection; what they do to it comes with the
-- event that ends the wait.
pub mod Closed
use nanwei_api_rust.Prelude.{ℕ, Bool, true, false, List, [], ◌∷◌, Option, none, some, if◌then◌else◌}
use nanwei_api_rust.Prelude.Run.{Run, ok, err, panicked}
use nanwei_api_rust.Quiche.{Quiche}
use nanwei_api_rust.Os.{IoErrorKind, would_block, other}
use nanwei_api_rust.Outgoing.{Datagram, Arrival, arrived, failed, flush_conn}

-- What a wait brings: an error, nothing before the timeout, or what the socket gives.
pub data Event : Type 0 where
  poll_failed timed_out : Event
  packets : List Arrival → Event

-- The loop has ended, or waits for the next event; the connection and the datagrams sent, newest
-- first.
pub data Progress (Conn : Type 0) : Type 0 where
  ended waiting : Conn → List Datagram → Progress Conn

module _ {Conn : Type 0} (q : Quiche Conn)
    (send_to : List Datagram → Datagram → Option IoErrorKind) where
  -- A packet that the connection refuses is passed over. The end of the list is the first time that
  -- the socket would block.
  unfoldable pub client_read : Conn → List Arrival → Run Conn
  client_read c [] = ok c
  client_read c (failed would_block ∷ arrivals) = ok c
  client_read c (failed other ∷ arrivals) = panicked
  client_read c (arrived (packet, from) ∷ arrivals) = client_read (q.recv c packet from).1 arrivals

  -- One round after the wait, from the state that the read loop leaves.
  unfoldable pub client_write : ℕ → Conn → List Datagram → Option (Run (Progress Conn))
  client_write n c outbox =
      if q.is_closed c then some (ok (ended c outbox)) else elim (flush_conn q send_to n c outbox) [
        | none ↦ none
        | some err ↦ some err
        | some panicked ↦ some panicked
        | some (ok r) ↦ some (ok (if q.is_closed r.0 then ended r.0 r.1 else waiting r.0 r.1))
      ]

  unfoldable pub client_round : ℕ → Conn → List Datagram → Event → Option (Run (Progress Conn))
  client_round n c outbox poll_failed = some err
  client_round n c outbox timed_out = client_write n (q.on_timeout c) outbox
  client_round n c outbox (packets arrivals) = elim (client_read c arrivals) [
    | err ↦ some err
    | panicked ↦ some panicked
    | ok c' ↦ client_write n c' outbox
  ]

  unfoldable pub client_loop :
      ℕ → Conn → List Datagram → List ((Conn → Conn) × Event) → Option (Run (Progress Conn))
  client_loop n c outbox [] = some (ok (waiting c outbox))
  client_loop n c outbox ((others, event) ∷ events) =
      elim (client_round n (others c) outbox event) [
        | none ↦ none
        | some err ↦ some err
        | some panicked ↦ some panicked
        | some (ok (ended c' outbox')) ↦ some (ok (ended c' outbox'))
        | some (ok (waiting c' outbox')) ↦ client_loop n c' outbox' events
      ]
