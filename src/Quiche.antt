-- ===== src/Quiche.antt =====
-- The interface to the QUIC library that src/client.rs, src/server.rs and src/ffi.rs call. The
-- library is not part of the repository, so a connection and its operations are parameters. `Error`
-- has the constructors that `error_to_c` in src/ffi.rs matches.
use nanwei_api_rust.Prelude.{ℕ, ◌≡◌, ◌≢◌, ◌≤◌, ◌++◌, Bool, true, false, List, Option, length, take}
use nanwei_api_rust.Prelude.Run.{Run, ok, panicked}

pub data Error : Type 0 where
  done buffer_too_short unknown_version invalid_frame invalid_packet invalid_state : Error
  invalid_stream_state : ℕ → Error
  invalid_transport_param crypto_fail tls_fail flow_control stream_limit final_size : Error
  congestion_control : Error
  stream_stopped : ℕ → Error
  stream_reset : ℕ → Error

abbrev pub is_done : Error → Bool
is_done Error.done = true
is_done e = false

pub data Result {ℓ} (A : Type ℓ) : Type ℓ where
  success : A → Result A
  failure : Error → Result A

-- `unwrap` and `expect`.
abbrev pub expect_success {ℓ} : {A : Type ℓ} → Result A → Run (Unit {0})
expect_success (success _) = ok tt
expect_success (failure _) = panicked

-- An address holds the octets that `octets()` gives: four, or sixteen.
pub data IpAddr : Type 0 where
  v4 v6 : List ℕ → IpAddr

pub record SocketAddr : Type 0 where
  pub ip : IpAddr
  pub port : ℕ

pub data PacketType : Type 0 where
  initial retry handshake zero_rtt version_negotiation short : PacketType

pub record Header : Type 0 where
  pub ty : PacketType
  pub version : ℕ
  pub dcid : List ℕ
  pub scid : List ℕ
  pub token : Option (List ℕ)

-- The operations of a connection. An operation that changes it returns the new one.
pub record Quiche (Conn : Type 0) : Type 0 where
  pub is_closed : Conn → Bool
  pub is_established : Conn → Bool
  pub is_in_early_data : Conn → Bool
  pub source_id : Conn → List ℕ
  pub timeout : Conn → Option ℕ
  pub on_timeout : Conn → Conn
  pub readable : Conn → List ℕ
  pub writable : Conn → List ℕ
  -- The stream, and the length of the buffer; the bytes read, and whether the stream has ended.
  pub stream_recv : Conn → ℕ → ℕ → Result (List ℕ × Bool) × Conn
  -- The stream, the bytes, and whether they end it; how many were taken.
  pub stream_send : Conn → ℕ → List ℕ → Bool → Result ℕ × Conn
  pub close : Conn → Bool → ℕ → List ℕ → Result (Unit {0}) × Conn
  pub recv : Conn → List ℕ → SocketAddr → Result ℕ × Conn
  pub send : Conn → Result (List ℕ × SocketAddr) × Conn

-- What the documentation of `stream_send` says, for an account `sent` of the bytes that a stream has
-- taken so far: it takes a prefix of the bytes, on that stream alone, and nothing when it fails.
pub record SendLaws {Conn : Type 0} (q : Quiche Conn) (sent : Conn → ℕ → List ℕ) : Type 0 where
  pub taken_le :
      (c : Conn) (id : ℕ) (buf : List ℕ) (fin : Bool) (k : ℕ)
      → (q.stream_send c id buf fin).0 ≡ success k
      → k ≤ length buf
  pub sent_success :
      (c : Conn) (id : ℕ) (buf : List ℕ) (fin : Bool) (k : ℕ)
      → (q.stream_send c id buf fin).0 ≡ success k
      → sent (q.stream_send c id buf fin).1 id ≡ sent c id ++ take k buf
  pub sent_failure :
      (c : Conn) (id : ℕ) (buf : List ℕ) (fin : Bool) (e : Error)
      → (q.stream_send c id buf fin).0 ≡ failure e
      → sent (q.stream_send c id buf fin).1 id ≡ sent c id
  pub sent_other :
      (c : Conn) (id j : ℕ) (buf : List ℕ) (fin : Bool)
      → id ≢ j
      → sent (q.stream_send c id buf fin).1 j ≡ sent c j

-- No operation changes the source id of a connection.
pub record IdLaws {Conn : Type 0} (q : Quiche Conn) : Type 0 where
  pub recv_id :
      (c : Conn) (packet : List ℕ) (from : SocketAddr)
      → q.source_id (q.recv c packet from).1 ≡ q.source_id c
  pub send_id : (c : Conn) → q.source_id (q.send c).1 ≡ q.source_id c
  pub stream_recv_id : (c : Conn) (id n : ℕ) → q.source_id (q.stream_recv c id n).1 ≡ q.source_id c
  pub stream_send_id :
      (c : Conn) (id : ℕ) (buf : List ℕ) (fin : Bool)
      → q.source_id (q.stream_send c id buf fin).1 ≡ q.source_id c
  pub close_id :
      (c : Conn) (app : Bool) (code : ℕ) (reason : List ℕ)
      → q.source_id (q.close c app code reason).1 ≡ q.source_id c
  pub on_timeout_id : (c : Conn) → q.source_id (q.on_timeout c) ≡ q.source_id c
