-- ===== src/Ffi/Config.antt =====
-- The functions of src/ffi.rs on a configuration: `dtp_config_init` and the `dtp_config_` setters. The
-- configuration is an object of the QUIC library, so it and what may be done to it are parameters. A
-- pointer that may be null is an `Option` of what it points to; a function returns its result and what
-- the pointer points to afterwards. Logging is left out.
pub mod Outcome
use nanwei_api_rust.Prelude.{ℕ, Bool, true, false, List, [], ◌∷◌, Option, none, some, if◌then◌else◌}
use nanwei_api_rust.Prelude.Int.{ℤ, pos, negsuc, as_i32, as_u64}
use nanwei_api_rust.Prelude.Run.{Run, ok, err, panicked, ◌>>=◌, ◌>>◌, expect}
use nanwei_api_rust.Prelude.Text.{is_utf8}
use nanwei_api_rust.Quiche.{Result, success, failure}
use nanwei_api_rust.Ffi.Errors.{error_to_c}

-- `quiche::Config`. An operation that changes it returns the new one.
pub record Configs (Config : Type 0) : Type 0 where
  pub new : Result Config
  pub load_cert_chain_from_pem_file : Config → List ℕ → Result (Unit {0}) × Config
  pub load_priv_key_from_pem_file : Config → List ℕ → Result (Unit {0}) × Config
  pub set_application_protos : Config → List ℕ → Result (Unit {0}) × Config
  pub set_max_idle_timeout : Config → ℕ → Config
  pub set_initial_max_data : Config → ℕ → Config
  pub set_initial_max_stream_data_bidi_local : Config → ℕ → Config
  pub set_initial_max_stream_data_bidi_remote : Config → ℕ → Config
  pub set_initial_max_stream_data_uni : Config → ℕ → Config
  pub set_initial_max_streams_bidi : Config → ℕ → Config
  pub set_initial_max_streams_uni : Config → ℕ → Config
  pub set_gmssl : Config → ℕ → Config
  pub set_cc_reno : Config → Config
  pub set_disable_active_migration : Config → Bool → Config
  pub log_keys : Config → Config

-- "./cert.crt", "./cert.key" and the protocols "hq-28", "hq-27" and "http/0.9", each after its length.
abbrev pub cert_path : List ℕ
cert_path = b'.' ∷ b'/' ∷ b'c' ∷ b'e' ∷ b'r' ∷ b't' ∷ b'.' ∷ b'c' ∷ b'r' ∷ b't' ∷ []

abbrev pub key_path : List ℕ
key_path = b'.' ∷ b'/' ∷ b'c' ∷ b'e' ∷ b'r' ∷ b't' ∷ b'.' ∷ b'k' ∷ b'e' ∷ b'y' ∷ []

abbrev pub protos : List ℕ
protos =
    5 ∷ b'h' ∷ b'q' ∷ b'-' ∷ b'2' ∷ b'8' ∷ 5 ∷ b'h' ∷ b'q' ∷ b'-' ∷ b'2' ∷ b'7' ∷ 8 ∷ b'h' ∷ b't'
    ∷ b't' ∷ b'p' ∷ b'/' ∷ b'0' ∷ b'.' ∷ b'9' ∷ []

-- A step that may fail, on the way to a null pointer.
abbrev pub or_null {ℓ} : {Config : Type ℓ} → Result (Unit {0}) × Config → Run Config
or_null (success _, config) = ok config
or_null (failure e, config) = err

abbrev pub created {ℓ} : {Config : Type ℓ} → Result Config → Run Config
created (success config) = ok config
created (failure e) = err

abbrev pub load_result : Result (Unit {0}) → ℤ
load_result (success _) = pos 0
load_result (failure e) = as_i32 (as_u64 (error_to_c e))

module _ {Config : Type 0} (lib : Configs Config) where
  -- The settings of `dtp_config_init`; `keylog` is whether SSLKEYLOGFILE is in the environment.
  unfoldable pub with_defaults : (keylog : Bool) → Config → Config
  with_defaults keylog c =
      let c₁ = lib.set_max_idle_timeout c 1000000 in
      let c₂ = lib.set_initial_max_data c₁ 0xffffffff in
      let c₃ = lib.set_initial_max_stream_data_bidi_local c₂ 0xffffffff in
      let c₄ = lib.set_initial_max_stream_data_bidi_remote c₃ 0xffffffff in
      let c₅ = lib.set_initial_max_streams_bidi c₄ 0xffffffff in
      let c₆ = lib.set_cc_reno c₅ in
      let c₇ = lib.set_disable_active_migration c₆ true in if keylog then lib.log_keys c₇ else c₇

  -- `err` is the null pointer.
  unfoldable pub dtp_config_init : (keylog : Bool) → Run Config
  dtp_config_init keylog = do
    c ← created lib.new
    c₁ ← or_null (lib.load_cert_chain_from_pem_file c cert_path)
    c₂ ← or_null (lib.load_priv_key_from_pem_file c₁ key_path)
    c₃ ← or_null (lib.set_application_protos c₂ protos)
    ok (with_defaults keylog c₃)

  unfoldable pub dtp_config_load_cert_chain_from_pem_file :
      Option Config → List ℕ → Run (ℤ × Option Config)
  dtp_config_load_cert_chain_from_pem_file none path = ok (negsuc 0, none)
  dtp_config_load_cert_chain_from_pem_file (some c) path = do
    expect (is_utf8 path)
    let r = lib.load_cert_chain_from_pem_file c path
    ok (load_result r.0, some r.1)

  unfoldable pub dtp_config_load_priv_key_from_pem_file :
      Option Config → List ℕ → Run (ℤ × Option Config)
  dtp_config_load_priv_key_from_pem_file none path = ok (negsuc 0, none)
  dtp_config_load_priv_key_from_pem_file (some c) path = do
    expect (is_utf8 path)
    let r = lib.load_priv_key_from_pem_file c path
    ok (load_result r.0, some r.1)

  unfoldable pub dtp_config_set_max_idle_timeout : Option Config → ℕ → ℤ × Option Config
  dtp_config_set_max_idle_timeout none v = (negsuc 0, none)
  dtp_config_set_max_idle_timeout (some c) v = (pos 0, some (lib.set_max_idle_timeout c v))

  unfoldable pub dtp_config_set_initial_max_stream_data_bidi_local :
      Option Config → ℕ → ℤ × Option Config
  dtp_config_set_initial_max_stream_data_bidi_local none v = (negsuc 0, none)
  dtp_config_set_initial_max_stream_data_bidi_local (some c) v =
      (pos 0, some (lib.set_initial_max_stream_data_bidi_local c v))

  unfoldable pub dtp_config_set_initial_max_stream_data_bidi_remote :
      Option Config → ℕ → ℤ × Option Config
  dtp_config_set_initial_max_stream_data_bidi_remote none v = (negsuc 0, none)
  dtp_config_set_initial_max_stream_data_bidi_remote (some c) v =
      (pos 0, some (lib.set_initial_max_stream_data_bidi_remote c v))

  unfoldable pub dtp_config_set_initial_max_stream_data_uni : Option Config → ℕ → ℤ × Option Config
  dtp_config_set_initial_max_stream_data_uni none v = (negsuc 0, none)
  dtp_config_set_initial_max_stream_data_uni (some c) v =
      (pos 0, some (lib.set_initial_max_stream_data_uni c v))

  unfoldable pub dtp_config_set_initial_max_streams_bidi : Option Config → ℕ → ℤ × Option Config
  dtp_config_set_initial_max_streams_bidi none v = (negsuc 0, none)
  dtp_config_set_initial_max_streams_bidi (some c) v =
      (pos 0, some (lib.set_initial_max_streams_bidi c v))

  unfoldable pub dtp_config_set_initial_max_streams_uni : Option Config → ℕ → ℤ × Option Config
  dtp_config_set_initial_max_streams_uni none v = (negsuc 0, none)
  dtp_config_set_initial_max_streams_uni (some c) v =
      (pos 0, some (lib.set_initial_max_streams_uni c v))

  unfoldable pub dtp_config_set_gmssl_key : Option Config → ℕ → ℤ × Option Config
  dtp_config_set_gmssl_key none v = (negsuc 0, none)
  dtp_config_set_gmssl_key (some c) v = (pos 0, some (lib.set_gmssl c v))
