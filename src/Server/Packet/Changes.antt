-- ===== src/Server/Packet/Changes.antt =====
-- What one packet changes of the clients and of the status map in `server_loop` of src/server.rs.
use nanwei_api_rust.Prelude.{
  ℕ, ◌+◌, ◌≡◌, refl, ◌∙◌, true, List, [], ◌∷◌, Option, none, some, is_some, arith, Bool-cases, inl,
  inr, ◌==◌, nat_eq, bytes_eq, bytes_beq_iff, ◌||◌, ◌&&◌, not, length, take, leb, if◌then◌else◌,
}
use nanwei_api_rust.Prelude.Map.{get, insert, get-insert, contains_key}
use nanwei_api_rust.Prelude.Run.{or_panic, expect, Always, Always->>=, Always-ok, or_panic-ok}
use nanwei_api_rust.Quiche.{Quiche, Result, success, failure, SocketAddr, Header}
use nanwei_api_rust.Os.{IoErrorKind, would_block, other}
use nanwei_api_rust.World.{connected}
use nanwei_api_rust.Server.Token.{validate_token, mint_token}
use nanwei_api_rust.Server.Partial.{handle_all_writable}
use nanwei_api_rust.Outgoing.{Datagram}
use nanwei_api_rust.Server.Packet.{
  Client, Server, Env, Admission, turned_away, admitted, send_away, add_client, admit, check_token,
  new_client, find_client, serve, feed, process, read_header, read_packet, or_unwrap, is_initial,
}

module _ {Conn : Type 0} (q : Quiche Conn) (env : Env Conn) where
  -- A step that adds and removes no key, and leaves the status map.
  pub record Same (s s' : Server Conn) : Type 0 where
    pub keys : (k : List ℕ) → is_some (get k s'.clients) ≡ is_some (get k s.clients)
    pub status : s'.client_status ≡ s.client_status
    pub next : s'.next_conn ≡ s.next_conn

  -- A step that adds a client of a connection that was not in use.
  pub record Joined (s s' : Server Conn) : Type 0 where
    pub key : List ℕ
    pub new : get key s.clients ≡ none
    pub keys :
        (k : List ℕ)
        → is_some (get k s'.clients) ≡ (if key == k then true else is_some (get k s.clients))
    pub status : s'.client_status ≡ insert key (s.next_conn, connected) s.client_status
    pub next : s'.next_conn ≡ s.next_conn + 1

  pub data Change (s s' : Server Conn) : Type 0 where
    same : Same s s' → Change s s'
    joined : Joined s s' → Change s s'

  Change-Same : (s s' s'' : Server Conn) → Change s s' → Same s' s'' → Change s s''
  Change-Same s s' s'' (same a) b = same (record {
    keys = λ k. b.keys k ∙ a.keys k;
    status = b.status ∙ a.status;
    next = b.next ∙ a.next;
  })
  Change-Same s s' s'' (joined a) b = joined (record {
    key = a.key;
    new = a.new;
    keys = λ k. b.keys k ∙ a.keys k;
    status = b.status ∙ a.status;
    next = b.next ∙ a.next;
  })

  Same-conn :
      (s : Server Conn) (conn : ℕ → Conn) (out : List Datagram)
      → Same s (record s { conn = conn; outbox = out })
  Same-conn s conn out = record { keys = λ k. refl; status = refl; next = refl }

  Same-serve :
      (s : Server Conn) (key : List ℕ) (client : Client) (c : Conn)
      → get key s.clients ≡ some client
      → Always (Same s) (serve q env s key client c)
  unfolding serve
  Same-serve s key client c g = elim (Bool-cases (q.is_in_early_data c || q.is_established c)) [
    | inr b ↦ rw b (Same-conn s _ s.outbox)
    | inl b ↦ rw b (
        Always->>= (Same s) (handle_all_writable q c client.partial_responses (q.writable c)) _
          λ r w. record {
            keys = λ k. ground (
              arith,
              get-insert key k (record client { partial_responses = r.1 }) s.clients,
              bytes_beq_iff key k,
            );
            status = refl;
            next = refl;
          })
  ]

  pub Same-feed :
      (s : Server Conn) (d : Datagram) (key : List ℕ) (client : Client)
      → get key s.clients ≡ some client
      → Always (Same s) (feed q env s d key client)
  unfolding feed
  Same-feed s (packet, from) key client g = go (q.recv (s.conn client.conn) packet from).0 refl
    where
      go :
          (r : Result ℕ)
          → (q.recv (s.conn client.conn) packet from).0 ≡ r
          → Always (Same s) (feed q env s (packet, from) key client)
      go (success n) e = rw (Always, e) (Same-serve s key client _ g)
      go (failure f) e = elim (Bool-cases env.logs_errors) [
        | inl b ↦ rw (Always, e, b) tt
        | inr b ↦ rw (Always, e, b) (Same-conn s _ s.outbox)
      ]

  -- The change of either outcome.
  abbrev Changed : Server Conn → Admission Conn → Type 0
  Changed s (turned_away _ s') = Change s s'
  Changed s (admitted _ s') = Change s s'

  unchanged : (s : Server Conn) → Change s s
  unchanged s = same (Same-conn s s.conn s.outbox)

  Changed-send_away : (s : Server Conn) (d : Datagram) → Always (Changed s) (send_away q env s d)
  unfolding send_away
  Changed-send_away s d = go (env.send_to s.outbox d) refl
    where
      go :
          (o : Option IoErrorKind)
          → env.send_to s.outbox d ≡ o
          → Always (Changed s) (send_away q env s d)
      go none e = rw (Always, e) (same (Same-conn s s.conn _))
      go (some would_block) e = rw (Always, e) (unchanged s)
      go (some other) e = rw (Always, e) tt

  Changed-admit :
      (s : Server Conn) (from : SocketAddr) (hdr : Header) (conn_id : List ℕ)
      (odcid : Option (List ℕ))
      → get hdr.dcid s.clients ≡ none
      → Always (Changed s) (admit q env s from hdr conn_id odcid)
  unfolding admit add_client
  Changed-admit s from hdr conn_id none new = unchanged s
  Changed-admit s from hdr conn_id (some odcid) new =
      elim (Bool-cases (length conn_id == length hdr.dcid)) [
        | inr b ↦ rw b (unchanged s)
        | inl b ↦ rw b (
            Always->>= (Changed s) (or_unwrap (env.accept hdr.dcid odcid from)) _ λ c e.
              joined (record {
                key = hdr.dcid;
                new = new;
                keys = λ k. ground (
                  arith,
                  get-insert hdr.dcid k (record { conn = s.next_conn; partial_responses = [] })
                      s.clients,
                );
                status = refl;
                next = refl;
              }))
      ]

  Changed-check_token :
      (s : Server Conn) (from : SocketAddr) (hdr : Header) (conn_id token : List ℕ)
      → get hdr.dcid s.clients ≡ none
      → Always (Changed s) (check_token q env s from hdr conn_id token)
  unfolding check_token
  Changed-check_token s from hdr conn_id [] new =
      Always->>= (Changed s)
        (or_unwrap (env.retry hdr.scid hdr.dcid conn_id (mint_token hdr from) hdr.version)) _
        λ packet e. Changed-send_away s (packet, from)
  Changed-check_token s from hdr conn_id (b ∷ token) new =
      Changed-admit s from hdr conn_id (validate_token from (b ∷ token)) new

  Changed-new_client :
      (s : Server Conn) (from : SocketAddr) (hdr : Header) (conn_id : List ℕ)
      → get hdr.dcid s.clients ≡ none
      → Always (Changed s) (new_client q env s from hdr conn_id)
  unfolding new_client
  Changed-new_client s from hdr conn_id new = elim (Bool-cases (is_initial hdr.ty)) [
    | inr a ↦ rw a (unchanged s)
    | inl a ↦ elim (Bool-cases (env.version_is_supported hdr.version)) [
      | inr b ↦
          rw (a, b)
            (Always->>= (Changed s) (or_unwrap (env.negotiate_version hdr.scid hdr.dcid)) _
              λ packet e. Changed-send_away s (packet, from))
      | inl b ↦
          rw (a, b)
            (Always->>= (Changed s) (or_panic hdr.token) _
              λ token e. Changed-check_token s from hdr conn_id token new)
    ]
  ]

  Changed-find_client :
      (s : Server Conn) (from : SocketAddr) (hdr : Header) (conn_id : List ℕ)
      → Always (Changed s) (find_client q env s from hdr conn_id)
  unfolding find_client
  Changed-find_client s from hdr conn_id =
      elim (Bool-cases
        (not (contains_key hdr.dcid s.clients) && not (contains_key conn_id s.clients))) [
          | inl b ↦ rw b (Changed-new_client s from hdr conn_id (ground arith))
          | inr b ↦ rw b (unchanged s)
        ]

  Changed-process :
      (d : Datagram) (s : Server Conn) (a : Admission Conn)
      → Changed s a
      → Always (λ r. Change s r.1) (process q env d a)
  unfolding process
  Changed-process d s (turned_away control s') h = h
  Changed-process d s (admitted key s') h =
      Always->>= _ (or_panic (get key s'.clients)) _ λ client g.
        Always->>= _ (feed q env s' d key client) _ λ s'' e.
          Change-Same s s' s'' h
            (Always-ok (Same s') _ s'' e (Same-feed s' d key client (or_panic-ok _ client g)))

  -- A packet that the server survives adds at most one client.
  pub Change-read_packet :
      (s : Server Conn) (d : Datagram) → Always (λ r. Change s r.1) (read_packet q env s d)
  unfolding read_packet read_header
  Change-read_packet s d = go (env.from_slice d.0) refl
    where
      go :
          (r : Result Header)
          → env.from_slice d.0 ≡ r
          → Always (λ r. Change s r.1) (read_packet q env s d)
      go (failure f) e = rw (Always, e) (unchanged s)
      go (success hdr) e =
          rw (Always, e)
            (Always->>= _ (expect (leb env.max_conn_id_len (length (env.sign hdr.dcid)))) _ λ _ _.
              Always->>= _
                (find_client q env s d.1 hdr (take env.max_conn_id_len (env.sign hdr.dcid))) _
                λ a w.
                  Changed-process d s a
                    (Always-ok (Changed s) _ a w (Changed-find_client s d.1 hdr _)))
