-- ===== src/Server/Packet/Grants.antt =====
-- What `server_loop` of src/server.rs checks before it makes a client.
use nanwei_api_rust.Prelude.{
  ℕ, ◌≡◌, ◌⊎◌, refl, sym, ◌∙◌, true, List, [], ◌∷◌, Option, none, some, Bool-cases, inl, inr, ◌==◌,
  nat_eq, bytes_eq, bytes_beq_iff, length, not, ◌&&◌,
}
use nanwei_api_rust.Prelude.Map.{get, get-insert, contains_key}
use nanwei_api_rust.Prelude.Run.{or_panic, Always, Always->>=, or_panic-ok}
use nanwei_api_rust.Quiche.{Quiche, SocketAddr, Header}
use nanwei_api_rust.Os.{IoErrorKind, would_block, other}
use nanwei_api_rust.World.{connected}
use nanwei_api_rust.Server.Token.{validate_token, mint_token}
use nanwei_api_rust.Outgoing.{Datagram}
use nanwei_api_rust.Server.Packet.{
  Server, Env, Admission, turned_away, admitted, send_away, add_client, admit, check_token,
  new_client, find_client, or_unwrap, is_initial,
}

module _ {Conn : Type 0} (q : Quiche Conn) (env : Env Conn) where
  -- What the server has checked of a packet before it makes a client, and what it writes into the
  -- status map.
  pub record Granted (hdr : Header) (from : SocketAddr) (k : List ℕ) (s : Server Conn)
      : Type 0 where
    pub key : k ≡ hdr.dcid
    pub ty : is_initial hdr.ty ≡ true
    pub version : env.version_is_supported hdr.version ≡ true
    pub token : List ℕ
    pub has_token : hdr.token ≡ some token
    pub odcid : List ℕ
    pub validated : validate_token from token ≡ some odcid
    pub conn : ℕ
    pub status : get k s.client_status ≡ some (conn, connected)

  -- A key that was not in use is still not, or its client has been granted.
  abbrev pub OnlyGranted : Header → SocketAddr → Server Conn → Server Conn → Type 0
  OnlyGranted hdr from s s' =
      (k : List ℕ) → get k s.clients ≡ none → (get k s'.clients ≡ none) ⊎ Granted hdr from k s'

  abbrev pub Outcome : Header → SocketAddr → Server Conn → Admission Conn → Type 0
  Outcome hdr from s (turned_away _ s') = OnlyGranted hdr from s s'
  Outcome hdr from s (admitted _ s') = OnlyGranted hdr from s s'

  Outcome-send_away :
      (hdr : Header) (from : SocketAddr) (s : Server Conn) (d : Datagram)
      → Always (Outcome hdr from s) (send_away q env s d)
  unfolding send_away
  Outcome-send_away hdr from s d = go (env.send_to s.outbox d) refl
    where
      go :
          (o : Option IoErrorKind)
          → env.send_to s.outbox d ≡ o
          → Always (Outcome hdr from s) (send_away q env s d)
      go none e = rw (Always, e) λ k h. inl h
      go (some would_block) e = rw (Always, e) λ k h. inl h
      go (some other) e = rw (Always, e) tt

  Outcome-admit :
      (s : Server Conn) (from : SocketAddr) (hdr : Header) (conn_id token : List ℕ)
      (odcid : Option (List ℕ))
      → is_initial hdr.ty ≡ true
      → env.version_is_supported hdr.version ≡ true
      → hdr.token ≡ some token
      → validate_token from token ≡ odcid
      → Always (Outcome hdr from s) (admit q env s from hdr conn_id odcid)
  unfolding admit add_client
  Outcome-admit s from hdr conn_id token none ty version has v = λ k h. inl h
  Outcome-admit s from hdr conn_id token (some odcid) ty version has v =
      elim (Bool-cases (length conn_id == length hdr.dcid)) [
        | inr b ↦ rw b (λ k h. inl h)
        | inl b ↦ rw b (
            Always->>= (Outcome hdr from s) (or_unwrap (env.accept hdr.dcid odcid from)) _
              λ c e k h. elim (Bool-cases (hdr.dcid == k)) [
                | inr n ↦ inl (get-insert hdr.dcid k _ s.clients ∙ rw n h)
                | inl y ↦ inr (record {
                  key = sym ((bytes_beq_iff hdr.dcid k).0 y);
                  ty = ty;
                  version = version;
                  token = token;
                  has_token = has;
                  odcid = odcid;
                  validated = v;
                  conn = s.next_conn;
                  status =
                      get-insert hdr.dcid k (s.next_conn, connected) s.client_status ∙ rw y refl;
                })
              ])
      ]

  Outcome-check_token :
      (s : Server Conn) (from : SocketAddr) (hdr : Header) (conn_id token : List ℕ)
      → is_initial hdr.ty ≡ true
      → env.version_is_supported hdr.version ≡ true
      → hdr.token ≡ some token
      → Always (Outcome hdr from s) (check_token q env s from hdr conn_id token)
  unfolding check_token
  Outcome-check_token s from hdr conn_id [] ty version has =
      Always->>= (Outcome hdr from s)
        (or_unwrap (env.retry hdr.scid hdr.dcid conn_id (mint_token hdr from) hdr.version)) _
        λ packet e. Outcome-send_away hdr from s (packet, from)
  Outcome-check_token s from hdr conn_id (b ∷ token) ty version has =
      Outcome-admit s from hdr conn_id (b ∷ token) _ ty version has refl

  Outcome-new_client :
      (s : Server Conn) (from : SocketAddr) (hdr : Header) (conn_id : List ℕ)
      → Always (Outcome hdr from s) (new_client q env s from hdr conn_id)
  unfolding new_client
  Outcome-new_client s from hdr conn_id = elim (Bool-cases (is_initial hdr.ty)) [
    | inr a ↦ rw a (λ k h. inl h)
    | inl a ↦ elim (Bool-cases (env.version_is_supported hdr.version)) [
      | inr b ↦
          rw (a, b)
            (Always->>= (Outcome hdr from s) (or_unwrap (env.negotiate_version hdr.scid hdr.dcid)) _
              λ packet e. Outcome-send_away hdr from s (packet, from))
      | inl b ↦
          rw (a, b)
            (Always->>= (Outcome hdr from s) (or_panic hdr.token) _ λ token e.
              Outcome-check_token s from hdr conn_id token a b (or_panic-ok hdr.token token e))
    ]
  ]

  pub Outcome-find_client :
      (s : Server Conn) (from : SocketAddr) (hdr : Header) (conn_id : List ℕ)
      → Always (Outcome hdr from s) (find_client q env s from hdr conn_id)
  unfolding find_client
  Outcome-find_client s from hdr conn_id =
      elim (Bool-cases
        (not (contains_key hdr.dcid s.clients) && not (contains_key conn_id s.clients))) [
          | inl b ↦ rw b (Outcome-new_client s from hdr conn_id)
          | inr b ↦ rw b (λ k h. inl h)
        ]
