-- ===== src/Client/Loop/Closed.antt =====
-- When `client_loop` of src/client.rs ends.
use nanwei_api_rust.Prelude.{
  ℕ, suc, ◌+◌, ◌<◌, ◌≤◌, ◌≡◌, refl, ◌∙◌, true, false, if◌then◌else◌, List, [], ◌∷◌, Option, none,
  some, arith, Bool-cases, inl, inr,
}
use nanwei_api_rust.Prelude.Run.{Run, ok, err, panicked}
use nanwei_api_rust.Quiche.{Quiche, success}
use nanwei_api_rust.Os.{IoErrorKind}
use nanwei_api_rust.Outgoing.{Datagram, flush_conn}
use nanwei_api_rust.Outgoing.Enough.{flush_conn_more, flush_conn_enough}
use nanwei_api_rust.Client.Loop.{
  Event, poll_failed, timed_out, packets, Progress, ended, waiting, client_read, client_write,
  client_round, client_loop,
}

module _ {Conn : Type 0} (q : Quiche Conn)
    (send_to : List Datagram → Datagram → Option IoErrorKind) where
  -- A loop has ended only with a closed connection, and waits only with an open one.
  abbrev pub IsSettled : Progress Conn → Type 0
  IsSettled (ended c outbox) = q.is_closed c ≡ true
  IsSettled (waiting c outbox) = q.is_closed c ≡ false

  client_write-IsSettled :
      (n : ℕ) (c : Conn) (outbox : List Datagram) (p : Progress Conn)
      → client_write q send_to n c outbox ≡ some (ok p)
      → IsSettled p
  unfolding client_write
  client_write-IsSettled n c outbox (ended c' outbox') h = ground arith
  client_write-IsSettled n c outbox (waiting c' outbox') h = ground arith

  client_round-IsSettled :
      (n : ℕ) (c : Conn) (outbox : List Datagram) (event : Event) (p : Progress Conn)
      → client_round q send_to n c outbox event ≡ some (ok p)
      → IsSettled p
  unfolding client_round
  client_round-IsSettled n c outbox poll_failed p h = absurd (ground arith)
  client_round-IsSettled n c outbox timed_out p h =
      client_write-IsSettled n (q.on_timeout c) outbox p h
  client_round-IsSettled n c outbox (packets arrivals) p h =
      go (client_read q send_to c arrivals) refl
    where
      go : (r : Run Conn) → client_read q send_to c arrivals ≡ r → IsSettled p
      go err e = absurd (let h' = rw (client_round, e) at h in ground arith)
      go panicked e = absurd (let h' = rw (client_round, e) at h in ground arith)
      go (ok c') e = client_write-IsSettled n c' outbox p (rw (client_round, e) at h)

  -- When `client_loop`, after at least one event, has ended without an error or a panic, its connection is
  -- closed; when it goes on waiting, its connection is open.
  pub client_loop-IsSettled :
      (n : ℕ) (c : Conn) (outbox : List Datagram) (event : (Conn → Conn) × Event)
      (events : List ((Conn → Conn) × Event)) (p : Progress Conn)
      → client_loop q send_to n c outbox (event ∷ events) ≡ some (ok p)
      → IsSettled p
  unfolding client_loop
  client_loop-IsSettled n c outbox (others, event) [] p h =
      settle (client_round q send_to n (others c) outbox event) refl
    where
      settle :
          (r : Option (Run (Progress Conn)))
          → client_round q send_to n (others c) outbox event ≡ r
          → IsSettled p
      settle none e = absurd (let h' = rw (client_loop, e) at h in ground arith)
      settle (some err) e = absurd (let h' = rw (client_loop, e) at h in ground arith)
      settle (some panicked) e = absurd (let h' = rw (client_loop, e) at h in ground arith)
      settle (some (ok (ended c' o'))) e =
          client_round-IsSettled n (others c) outbox event p (e ∙ rw (client_loop, e) at h)
      settle (some (ok (waiting c' o'))) e =
          client_round-IsSettled n (others c) outbox event p (e ∙ rw (client_loop, e) at h)
  client_loop-IsSettled n c outbox (others, event) (event' ∷ events) p h =
      settle (client_round q send_to n (others c) outbox event) refl
        (λ d o. client_loop-IsSettled n d o event' events p)
    where
      settle :
          (r : Option (Run (Progress Conn)))
          → client_round q send_to n (others c) outbox event ≡ r
          → ((d : Conn) (o : List Datagram)
              → client_loop q send_to n d o (event' ∷ events) ≡ some (ok p)
              → IsSettled p)
          → IsSettled p
      settle none e ih = absurd (let h' = rw (client_loop, e) at h in ground arith)
      settle (some err) e ih = absurd (let h' = rw (client_loop, e) at h in ground arith)
      settle (some panicked) e ih = absurd (let h' = rw (client_loop, e) at h in ground arith)
      settle (some (ok (ended c' o'))) e ih =
          client_round-IsSettled n (others c) outbox event p (e ∙ rw (client_loop, e) at h)
      settle (some (ok (waiting c' o'))) e ih = ih c' o' (rw (client_loop, e) at h)

  module _ (pending : Conn → ℕ)
      (sends : (c : Conn) (d : Datagram)
        → (q.send c).0 ≡ success d
        → pending (q.send c).1 < pending c) where
    client_write_enough :
        (c : Conn) (outbox : List Datagram)
        → (n : ℕ) × (r : Run (Progress Conn)) × ((m : ℕ)
            → n ≤ m
            → client_write q send_to m c outbox ≡ some r)
    unfolding client_write
    client_write_enough c outbox = elim (Bool-cases (q.is_closed c)) [
      | inl b ↦ (0, ok (ended c outbox), λ m le. rw (client_write, b) refl)
      | inr b ↦
          let (r, e) =
            flush_conn_enough q send_to pending sends (suc (pending c)) c outbox (omega arith) in
          go b r (λ m le. flush_conn_more q send_to (suc (pending c)) m c outbox r le e)
    ]
      where
        go :
            q.is_closed c ≡ false
            → (r : Run (Conn × List Datagram))
            → ((m : ℕ) → suc (pending c) ≤ m → flush_conn q send_to m c outbox ≡ some r)
            → (n : ℕ) × (r : Run (Progress Conn)) × ((m : ℕ)
                → n ≤ m
                → client_write q send_to m c outbox ≡ some r)
        go b err e = (suc (pending c), err, λ m le. rw (client_write, b, e m le) refl)
        go b panicked e = (suc (pending c), panicked, λ m le. rw (client_write, b, e m le) refl)
        go b (ok r) e = (
          suc (pending c),
          ok (if q.is_closed r.0 then ended r.0 r.1 else waiting r.0 r.1),
          λ m le. rw (client_write, b, e m le) refl,
        )

    client_round_enough :
        (c : Conn) (outbox : List Datagram) (event : Event)
        → (n : ℕ) × (r : Run (Progress Conn)) × ((m : ℕ)
            → n ≤ m
            → client_round q send_to m c outbox event ≡ some r)
    unfolding client_round
    client_round_enough c outbox poll_failed = (0, err, λ m le. refl)
    client_round_enough c outbox timed_out = client_write_enough (q.on_timeout c) outbox
    client_round_enough c outbox (packets arrivals) = go (client_read q send_to c arrivals) refl
      where
        go :
            (r : Run Conn)
            → client_read q send_to c arrivals ≡ r
            → (n : ℕ) × (r : Run (Progress Conn)) × ((m : ℕ)
                → n ≤ m
                → client_round q send_to m c outbox (packets arrivals) ≡ some r)
        go err e = (0, err, λ m le. rw (client_round, e) refl)
        go panicked e = (0, panicked, λ m le. rw (client_round, e) refl)
        go (ok c') e =
            let (n, r, f) = client_write_enough c' outbox in
            (n, r, λ m le. rw (client_round, e) (f m le))

    -- For a `send` that makes a packet only of what the connection still has to send, there is fuel with
    -- which `client_loop` has a result for a sequence of events, whatever other threads do to the
    -- connection in between, and more fuel does not change the result.
    pub client_loop_enough :
        (events : List ((Conn → Conn) × Event)) (c : Conn) (outbox : List Datagram)
        → (n : ℕ) × (r : Run (Progress Conn)) × ((m : ℕ)
            → n ≤ m
            → client_loop q send_to m c outbox events ≡ some r)
    unfolding client_loop
    client_loop_enough [] c outbox = (0, ok (waiting c outbox), λ m le. refl)
    client_loop_enough ((others, event) ∷ events) c outbox =
        let (n, r, e) = client_round_enough (others c) outbox event in
        go n r e (client_loop_enough events)
      where
        go :
            (n : ℕ) (r : Run (Progress Conn))
            → ((m : ℕ) → n ≤ m → client_round q send_to m (others c) outbox event ≡ some r)
            → ((c : Conn) (outbox : List Datagram)
                → (n : ℕ) × (r : Run (Progress Conn)) × ((m : ℕ)
                    → n ≤ m
                    → client_loop q send_to m c outbox events ≡ some r))
            → (n : ℕ) × (r : Run (Progress Conn)) × ((m : ℕ)
                → n ≤ m
                → client_loop q send_to m c outbox ((others, event) ∷ events) ≡ some r)
        go n err e ih = (n, err, λ m le. rw (client_loop, e m le) refl)
        go n panicked e ih = (n, panicked, λ m le. rw (client_loop, e m le) refl)
        go n (ok (ended c' o')) e ih = (n, ok (ended c' o'), λ m le. rw (client_loop, e m le) refl)
        go n (ok (waiting c' o')) e ih =
            let (n', r, e') = ih c' o' in
            (n + n', r, λ m le. rw (client_loop, e m (ground arith)) (e' m (ground arith)))
