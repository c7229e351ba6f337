-- ===== src/Ffi/Config/Outcome.antt =====
-- When the functions on a configuration succeed.
use nanwei_api_rust.Prelude.{
  ℕ, ◌≡◌, ◌≢◌, ◌↔◌, subst, sym, refl, ap, ◌∙◌, Bool, true, List, some, arith,
}
use nanwei_api_rust.Prelude.Int.{ℤ, pos}
use nanwei_api_rust.Prelude.Run.{ok, panicked, >>=-ok}
use nanwei_api_rust.Prelude.Text.{is_utf8}
use nanwei_api_rust.Quiche.{Result, success, failure}
use nanwei_api_rust.Ffi.Errors.{error_to_c_codes, error_of_c, kind, IsErrorCode}
use nanwei_api_rust.Ffi.Config.{
  Configs, cert_path, key_path, protos, or_null, created, with_defaults, dtp_config_init,
  load_result, dtp_config_load_cert_chain_from_pem_file, dtp_config_load_priv_key_from_pem_file,
}

or_null-ok {ℓ} :
    {Config : Type ℓ} (r : Result (Unit {0}) × Config) (c : Config)
    → or_null r ≡ ok c
    → r ≡ (success tt, c)
or_null-ok (success tt, d) c h = ground arith
or_null-ok (failure e, d) c h = cc

created-ok {ℓ} :
    {Config : Type ℓ} (r : Result Config) (c : Config) → created r ≡ ok c → r ≡ success c
created-ok (success d) c h = ground arith
created-ok (failure e) c h = cc

-- The result of loading a file is 0 when the file was read, and else the code of the error, from which
-- the kind of the error can be told.
abbrev pub LoadResult : Result (Unit {0}) → ℤ → Type 0
LoadResult (success u) z = z ≡ pos 0
LoadResult (failure e) z = (z ≢ pos 0) × (error_of_c z ≡ some (kind e))

load_result-LoadResult : (r : Result (Unit {0})) → LoadResult r (load_result r)
load_result-LoadResult (success u) = refl
load_result-LoadResult (failure e) =
    let (c, of_c, _, same) = error_to_c_codes e in rw same ((λ z. subst IsErrorCode z c), of_c)

module _ {Config : Type 0} (lib : Configs Config) where
  -- The steps of `dtp_config_init` that may fail, all successful.
  pub record Loaded (c₃ : Config) : Type 0 where
    pub c₀ : Config
    pub c₁ : Config
    pub c₂ : Config
    pub is_new : lib.new ≡ success c₀
    pub certified : lib.load_cert_chain_from_pem_file c₀ cert_path ≡ (success tt, c₁)
    pub keyed : lib.load_priv_key_from_pem_file c₁ key_path ≡ (success tt, c₂)
    pub agreed : lib.set_application_protos c₂ protos ≡ (success tt, c₃)

  loads :
      (keylog : Bool) (config : Config)
      → dtp_config_init lib keylog ≡ ok config
      → (c₃ : Config) × Loaded c₃ × (config ≡ with_defaults lib keylog c₃)
  unfolding dtp_config_init
  loads keylog config h =
      let (c₀, e₀, h₀) = >>=-ok (created lib.new) _ config h in
      let (c₁, e₁, h₁) =
        >>=-ok (or_null (lib.load_cert_chain_from_pem_file c₀ cert_path)) _ config h₀ in
      let (c₂, e₂, h₂) =
        >>=-ok (or_null (lib.load_priv_key_from_pem_file c₁ key_path)) _ config h₁ in
      let (c₃, e₃, h₃) = >>=-ok (or_null (lib.set_application_protos c₂ protos)) _ config h₂ in
      (
        c₃,
        record {
          c₀ = c₀;
          c₁ = c₁;
          c₂ = c₂;
          is_new = created-ok lib.new c₀ e₀;
          certified = or_null-ok _ c₁ e₁;
          keyed = or_null-ok _ c₂ e₂;
          agreed = or_null-ok _ c₃ e₃;
        },
        ground arith,
      )

  returns :
      (keylog : Bool) (c₃ : Config)
      → Loaded c₃
      → dtp_config_init lib keylog ≡ ok (with_defaults lib keylog c₃)
  unfolding dtp_config_init
  returns keylog c₃ l = rw (l.is_new, l.certified, l.keyed, l.agreed) refl

  never_panics : (keylog : Bool) → dtp_config_init lib keylog ≢ panicked
  unfolding dtp_config_init
  never_panics keylog h = ground arith

  -- `dtp_config_init` never panics. It returns a configuration exactly when the library makes one,
  -- reads the certificate and then the key, and takes the protocols; the configuration is then the
  -- one that this leaves, with the default settings.
  pub dtp_config_init_iff :
      (keylog : Bool) (config : Config)
      → ((dtp_config_init lib keylog ≡ ok config)
          ↔ ((c₃ : Config) × Loaded c₃ × (config ≡ with_defaults lib keylog c₃)))
        × (dtp_config_init lib keylog ≢ panicked)
  dtp_config_init_iff keylog config =
      ((loads keylog config, λ h. returns keylog h.0 h.1 ∙ ap ok (sym h.2)), never_panics keylog)

  -- For a configuration and a path in UTF-8, `dtp_config_load_cert_chain_from_pem_file` and
  -- `dtp_config_load_priv_key_from_pem_file` return 0 when the library read the file, and otherwise
  -- the code of its error, from which the kind of the error can be told; the configuration is the one
  -- that the library leaves.
  pub dtp_config_load_lem :
      (c : Config) (path : List ℕ)
      → is_utf8 path ≡ true
      → (z : ℤ) × (z' : ℤ) × (dtp_config_load_cert_chain_from_pem_file lib (some c) path
          ≡ ok (z, some (lib.load_cert_chain_from_pem_file c path).1))
        × LoadResult (lib.load_cert_chain_from_pem_file c path).0 z
        × (dtp_config_load_priv_key_from_pem_file lib (some c) path
            ≡ ok (z', some (lib.load_priv_key_from_pem_file c path).1))
        × LoadResult (lib.load_priv_key_from_pem_file c path).0 z'
  unfolding dtp_config_load_cert_chain_from_pem_file dtp_config_load_priv_key_from_pem_file
  dtp_config_load_lem c path u = (
    load_result (lib.load_cert_chain_from_pem_file c path).0,
    load_result (lib.load_priv_key_from_pem_file c path).0,
    rw u refl,
    load_result-LoadResult _,
    rw u refl,
    load_result-LoadResult _,
  )
