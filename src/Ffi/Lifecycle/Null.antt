-- ===== src/Ffi/Lifecycle/Null.antt =====
-- When `dtp_connect` of src/ffi.rs returns null.
use nanwei_api_rust.Prelude.{
  ap, sym, ◌∙◌, ℕ, ◌≡◌, ◌≢◌, ◌↔◌, refl, not, ◌||◌, Bool, true, false, List, Option, none, some,
  arith, Bool-cases, inl, inr, nat_eq,
}
use nanwei_api_rust.Prelude.Int.{ℤ, int_eq}
use nanwei_api_rust.Prelude.Run.{Run, ok, err, panicked, unwrap}
use nanwei_api_rust.Prelude.Text.{is_utf8}
use nanwei_api_rust.Quiche.{Quiche}
use nanwei_api_rust.Os.{Os}
use nanwei_api_rust.Api.{DtpClient, World, has_sock_entry, has_client}
use nanwei_api_rust.Client.{connect}
use nanwei_api_rust.Ffi.Sockets.{client_started, dtp_connect}

module _ {Conn : Type 0} (q : Quiche Conn) where
  -- Whether `dtp_connect` refuses: there is no configuration, the socket has no entry, or a client uses it.
  abbrev pub refused : World Conn → ℤ → Option ℕ → Bool
  refused w sock none = true
  refused w sock (some config) = not (has_sock_entry w.api sock) || has_client w.api sock

  client_started-none :
      (w w' : World Conn) (sock : ℤ) (r : Run (DtpClient × Conn))
      → client_started w sock r ≢ ok (w', none)
  unfolding client_started
  client_started-none w w' sock (ok (client, c)) h = ground arith
  client_started-none w w' sock err h = ground arith
  client_started-none w w' sock panicked h = ground arith

  client_started_fails :
      (w : World Conn) (sock : ℤ) (r : Run (DtpClient × Conn))
      → ((x : DtpClient × Conn) → r ≢ ok x)
      → client_started w sock (unwrap r) ≡ panicked
  unfolding client_started
  client_started_fails w sock (ok x) h = absurd (h x refl)
  client_started_fails w sock err h = refl
  client_started_fails w sock panicked h = refl

  pub null_refused :
      (os : Os Conn) (w w' : World Conn) (sock : ℤ) (ip : List ℕ) (port : ℤ) (config : Option ℕ)
      → dtp_connect q os w sock ip port config ≡ ok (w', none)
      → (refused w sock config ≡ true) × (w' ≡ w)
  unfolding dtp_connect
  null_refused os w w' sock ip port none h = (refl, ground arith)
  null_refused os w w' sock ip port (some config) h =
      elim (Bool-cases (has_sock_entry w.api sock)) [
        | inr e ↦ (rw e refl, ground arith)
        | inl e ↦ elim (Bool-cases (has_client w.api sock)) [
          | inl s ↦ (rw (e, s) refl, ground arith)
          | inr s ↦ elim (Bool-cases (is_utf8 ip)) [
            | inl u ↦ absurd (client_started-none w w' sock _ (rw (e, s, u) at h))
            | inr u ↦ absurd (ground arith)
          ]
        ]
      ]

  refused_null :
      (os : Os Conn) (w : World Conn) (sock : ℤ) (ip : List ℕ) (port : ℤ) (config : Option ℕ)
      → refused w sock config ≡ true
      → dtp_connect q os w sock ip port config ≡ ok (w, none)
  unfolding dtp_connect
  refused_null os w sock ip port none h = refl
  refused_null os w sock ip port (some config) h = ground arith

  failed_panics :
      (os : Os Conn) (w : World Conn) (sock : ℤ) (ip : List ℕ) (port : ℤ) (config : Option ℕ)
      → refused w sock config ≡ false
      → ((x : DtpClient × Conn) → connect q os ip port sock w.next_ref ≢ ok x)
      → dtp_connect q os w sock ip port config ≡ panicked
  unfolding dtp_connect
  failed_panics os w sock ip port none h n = absurd (ground arith)
  failed_panics os w sock ip port (some config) h n =
      let f = client_started_fails w sock (connect q os ip port sock w.next_ref) n in
      elim (Bool-cases (is_utf8 ip)) [ inl u ↦ ground arith | inr u ↦ ground arith ]

  -- `dtp_connect` returns null exactly when there is no configuration, the socket has no entry, or a
  -- client uses it, and it then changes nothing. When it does not refuse in this way and
  -- `DtpClient::connect` does not succeed, it panics.
  pub dtp_connect_null_iff :
      (os : Os Conn) (w : World Conn) (sock : ℤ) (ip : List ℕ) (port : ℤ) (config : Option ℕ)
      → ((w' : World Conn)
          → (dtp_connect q os w sock ip port config ≡ ok (w', none))
            ↔ ((refused w sock config ≡ true) × (w' ≡ w)))
        × (refused w sock config ≡ false
            → ((x : DtpClient × Conn) → connect q os ip port sock w.next_ref ≢ ok x)
            → dtp_connect q os w sock ip port config ≡ panicked)
  dtp_connect_null_iff os w sock ip port config = (
    λ w'. (
      null_refused os w w' sock ip port config,
      λ h. refused_null os w sock ip port config h.0 ∙ ap (λ v. ok (v, none)) (sym h.1),
    ),
    failed_panics os w sock ip port config,
  )
