-- ===== src/World.antt =====
-- What the threads of the program share: the data of src/lib.rs and of `SharedStreams` in
-- src/server.rs. An `Arc<Mutex<_>>` is a number, and `World` says what it refers to; two handles with
-- one number share their object.
use nanwei_api_rust.Prelude.{ℕ, Bool, List, Option, ◌==◌, nat_eq, if◌then◌else◌}
use nanwei_api_rust.Prelude.Int.{ℤ}

pub data ClientStatus : Type 0 where
  not_connected connected accepted close wait : ClientStatus

-- `client_status`: by the id of a connection, the connection and its status.
abbrev pub SharedStreams : Type 0
SharedStreams = List (List ℕ × (ℕ × ClientStatus))

pub record DtpConnection : Type 0 where
  pub is_server_side : Bool
  pub conn : ℕ
  pub waker : ℕ
  pub sockid : Option ℤ
  pub pconns : Option ℕ
  pub conn_id : Option (List ℕ)

-- A write through a reference.
abbrev pub update {ℓ} : {A : Type ℓ} → (ℕ → A) → ℕ → A → ℕ → A
update h r a i = if r == i then a else h i
