-- ===== src/Server/Packet/Loop.antt =====
-- The invariant `Tracked` through the read loop of `server_loop` in src/server.rs.
use nanwei_api_rust.Prelude.{
  ℕ, ◌≡◌, refl, ◌∙◌, List, [], ◌∷◌, Option, none, some, arith, Bool-cases, inl, inr, ◌==◌, nat_eq,
  bytes_eq, ◌||◌, length, take, leb, not, ◌&&◌,
}
use nanwei_api_rust.Prelude.Map.{get, contains_key}
use nanwei_api_rust.Prelude.Run.{ok, or_panic, expect, Always, Always->>=, Always-ok, or_panic-ok}
use nanwei_api_rust.Quiche.{Quiche, Result, success, failure, SocketAddr, Header, IdLaws}
use nanwei_api_rust.Os.{IoErrorKind, would_block, other}
use nanwei_api_rust.World.{update}
use nanwei_api_rust.Server.Token.{validate_token, mint_token}
use nanwei_api_rust.Server.Partial.{handle_all_writable}
use nanwei_api_rust.Outgoing.{Datagram, Arrival, arrived, failed}
use nanwei_api_rust.Server.Packet.{
  Client, Server, Env, Control, continue_read, break_read, Admission, turned_away, admitted,
  send_away, admit, check_token, new_client, find_client, serve, feed, process, read_header,
  read_packet, read_loop, or_unwrap, is_initial,
}
use nanwei_api_rust.Server.Packet.Tracked.{
  Tracked, Tracked-update, Tracked-partials, Tracked-add_client, handle_all_writable_id,
}

module _ {Conn : Type 0} (q : Quiche Conn) (ids : IdLaws q) (env : Env Conn) where
  Tracked-serve :
      (s : Server Conn) (k : List ℕ) (client : Client) (c : Conn)
      → get k s.clients ≡ some client
      → q.source_id c ≡ q.source_id (s.conn client.conn)
      → Tracked q s
      → Always (Tracked q) (serve q env s k client c)
  unfolding serve
  Tracked-serve s k client c g e t =
      elim (Bool-cases (q.is_in_early_data c || q.is_established c)) [
        | inl b ↦ rw b (
            Always->>= (Tracked q) (handle_all_writable q c client.partial_responses (q.writable c))
              _
              λ r w.
                Tracked-partials q ids (record s { conn = update s.conn client.conn r.0 }) k client
                  r.1 g
                  (Tracked-update q ids s k client r.0 g
                    (handle_all_writable_id q ids c r.0 client.partial_responses r.1 _ w ∙ e) t))
        | inr b ↦ rw b (Tracked-update q ids s k client c g e t)
      ]

  Tracked-feed :
      (s : Server Conn) (d : Datagram) (k : List ℕ) (client : Client)
      → get k s.clients ≡ some client
      → Tracked q s
      → Always (Tracked q) (feed q env s d k client)
  unfolding feed
  Tracked-feed s (packet, from) k client g t = go (q.recv (s.conn client.conn) packet from).0 refl
    where
      go :
          (r : Result ℕ)
          → (q.recv (s.conn client.conn) packet from).0 ≡ r
          → Always (Tracked q) (feed q env s (packet, from) k client)
      go (success n) e =
          rw (Always, e)
            (Tracked-serve s k client _ g (ids.recv_id (s.conn client.conn) packet from) t)
      go (failure f) e = elim (Bool-cases env.logs_errors) [
        | inl b ↦ rw (Always, e, b) tt
        | inr b ↦
            rw (Always, e, b)
              (Tracked-update q ids s k client _ g (ids.recv_id (s.conn client.conn) packet from) t)
      ]

  -- The server of either outcome.
  abbrev Left : Admission Conn → Type 0
  Left (turned_away _ s) = Tracked q s
  Left (admitted _ s) = Tracked q s

  Tracked-process :
      (d : Datagram) (a : Admission Conn) → Left a → Always (λ r. Tracked q r.1) (process q env d a)
  unfolding process
  Tracked-process d (turned_away control s) t = t
  Tracked-process d (admitted k s) t = Always->>= _ (or_panic (get k s.clients)) _ λ client g.
      Always->>= _ (feed q env s d k client) _ λ s' e.
        Always-ok (Tracked q) (feed q env s d k client) s' e
          (Tracked-feed s d k client (or_panic-ok _ client g) t)

  Left-send_away :
      (s : Server Conn) (d : Datagram) → Tracked q s → Always Left (send_away q env s d)
  unfolding send_away
  Left-send_away s d t = go (env.send_to s.outbox d) refl
    where
      go : (o : Option IoErrorKind) → env.send_to s.outbox d ≡ o → Always Left (send_away q env s d)
      go none e =
          rw (Always, e)
            (record { unique = t.unique; own_id = t.own_id; listed = t.listed; known = t.known })
      go (some would_block) e = rw (Always, e) t
      go (some other) e = rw (Always, e) tt

  or_unwrap-ok {ℓ} : {A : Type ℓ} (r : Result A) (a : A) → or_unwrap r ≡ ok a → r ≡ success a
  or_unwrap-ok (success b) a e = ground arith
  or_unwrap-ok (failure f) a e = absurd (ground arith)

  -- `quiche::accept` makes a connection with the source id that it is given.
  module _
      (accepts : (scid odcid : List ℕ) (from : SocketAddr) (c : Conn)
        → env.accept scid odcid from ≡ success c
        → q.source_id c ≡ scid) where
    Left-admit :
        (s : Server Conn) (from : SocketAddr) (hdr : Header) (conn_id : List ℕ)
        (odcid : Option (List ℕ))
        → Tracked q s
        → Always Left (admit q env s from hdr conn_id odcid)
    unfolding admit
    Left-admit s from hdr conn_id none t = t
    Left-admit s from hdr conn_id (some odcid) t =
        elim (Bool-cases (length conn_id == length hdr.dcid)) [
          | inl b ↦ rw b (
              Always->>= Left (or_unwrap (env.accept hdr.dcid odcid from)) _ λ c e.
                Tracked-add_client q ids env s hdr.dcid c
                  (accepts hdr.dcid odcid from c (or_unwrap-ok _ c e)) t)
          | inr b ↦ rw b t
        ]

    Left-check_token :
        (s : Server Conn) (from : SocketAddr) (hdr : Header) (conn_id token : List ℕ)
        → Tracked q s
        → Always Left (check_token q env s from hdr conn_id token)
    unfolding check_token
    Left-check_token s from hdr conn_id [] t =
        Always->>= Left
          (or_unwrap (env.retry hdr.scid hdr.dcid conn_id (mint_token hdr from) hdr.version)) _
          λ packet e. Left-send_away s (packet, from) t
    Left-check_token s from hdr conn_id (b ∷ token) t =
        Left-admit s from hdr conn_id (validate_token from (b ∷ token)) t

    Left-new_client :
        (s : Server Conn) (from : SocketAddr) (hdr : Header) (conn_id : List ℕ)
        → Tracked q s
        → Always Left (new_client q env s from hdr conn_id)
    unfolding new_client
    Left-new_client s from hdr conn_id t = elim (Bool-cases (is_initial hdr.ty)) [
      | inr a ↦ rw a t
      | inl a ↦ elim (Bool-cases (env.version_is_supported hdr.version)) [
        | inr b ↦
            rw (a, b)
              (Always->>= Left (or_unwrap (env.negotiate_version hdr.scid hdr.dcid)) _
                λ packet e. Left-send_away s (packet, from) t)
        | inl b ↦
            rw (a, b)
              (Always->>= Left (or_panic hdr.token) _
                λ token e. Left-check_token s from hdr conn_id token t)
      ]
    ]

    Left-find_client :
        (s : Server Conn) (from : SocketAddr) (hdr : Header) (conn_id : List ℕ)
        → Tracked q s
        → Always Left (find_client q env s from hdr conn_id)
    unfolding find_client
    Left-find_client s from hdr conn_id t =
        elim (Bool-cases
          (not (contains_key hdr.dcid s.clients) && not (contains_key conn_id s.clients))) [
            | inl b ↦ rw b (Left-new_client s from hdr conn_id t)
            | inr b ↦ rw b t
          ]

    pub Tracked-read_packet :
        (s : Server Conn) (d : Datagram)
        → Tracked q s
        → Always (λ r. Tracked q r.1) (read_packet q env s d)
    unfolding read_packet read_header
    Tracked-read_packet s d t = go (env.from_slice d.0) refl
      where
        go :
            (r : Result Header)
            → env.from_slice d.0 ≡ r
            → Always (λ r. Tracked q r.1) (read_packet q env s d)
        go (failure f) e = rw (Always, e) t
        go (success hdr) e =
            rw (Always, e)
              (Always->>= _ (expect (leb env.max_conn_id_len (length (env.sign hdr.dcid)))) _ λ _ _.
                Always->>= _
                  (find_client q env s d.1 hdr (take env.max_conn_id_len (env.sign hdr.dcid))) _
                  λ a w.
                    Tracked-process d a (Always-ok Left _ a w (Left-find_client s d.1 hdr _ t)))

    pub Always-read_loop :
        (arrivals : List Arrival) (s : Server Conn)
        → Tracked q s
        → Always (Tracked q) (read_loop q env s arrivals)
    unfolding read_loop
    Always-read_loop [] s t = t
    Always-read_loop (failed would_block ∷ arrivals) s t = t
    Always-read_loop (failed other ∷ arrivals) s t = tt
    Always-read_loop (arrived d ∷ arrivals) s t =
        Always->>= (Tracked q) (read_packet q env s d) _ λ r w.
          next (Always-read_loop arrivals) r.0 r.1
            (Always-ok (λ r. Tracked q r.1) _ r w (Tracked-read_packet s d t))
      where
        next :
            ((s' : Server Conn) → Tracked q s' → Always (Tracked q) (read_loop q env s' arrivals))
            → (control : Control) (s' : Server Conn) → Tracked q s'
            → Always
                (Tracked q)
                (elim control [ continue_read ↦ read_loop q env s' arrivals | break_read ↦ ok s' ])
        next rest continue_read s' t' = rest s' t'
        next rest break_read s' t' = t'

    -- When `accept` gives a connection the source id that it is asked for, and no operation changes
    -- it, a run of the read loop keeps every client of the server in the status map, under the source
    -- id of its connection, whatever the socket gives.
    pub Tracked-read_loop :
        (s s' : Server Conn) (arrivals : List Arrival)
        → Tracked q s
        → read_loop q env s arrivals ≡ ok s'
        → Tracked q s'
    Tracked-read_loop s s' arrivals t h =
        Always-ok (Tracked q) _ s' h (Always-read_loop arrivals s t)
