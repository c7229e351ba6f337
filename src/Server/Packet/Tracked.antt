-- ===== src/Server/Packet/Tracked.antt =====
-- The invariant of the clients of a server in src/server.rs, and the changes of a single client.
use nanwei_api_rust.Prelude.{
  ℕ, ◌<◌, ◌≡◌, refl, ◌∙◌, true, List, [], ◌∷◌, Option, none, some, arith, Option-cases, inl, inr,
  nat_eq, nat_beq_iff, bytes_eq, bytes_beq_iff, drop,
}
use nanwei_api_rust.Prelude.Map.{get, insert, get-insert, IsUnique, insert-IsUnique}
use nanwei_api_rust.Prelude.Run.{Run, ok, err, panicked}
use nanwei_api_rust.Quiche.{Quiche, IdLaws}
use nanwei_api_rust.World.{ClientStatus, connected, update}
use nanwei_api_rust.Server.Partial.{
  PartialResponse, Partials, taken, record_written, resume, handle_writable, handle_all_writable,
}
use nanwei_api_rust.Server.Packet.{Client, Server, Env, add_client}

-- An entry of the status map that stands for the given connection.
abbrev pub IsListed : Option (ℕ × ClientStatus) → ℕ → Type 0
IsListed none c = ⊥
IsListed (some entry) c = entry.0 ≡ c

pub record Tracked {Conn : Type 0} (q : Quiche Conn) (s : Server Conn) : Type 0 where
  pub unique : IsUnique s.clients
  pub own_id :
      (k : List ℕ) (cl : Client) → get k s.clients ≡ some cl → q.source_id (s.conn cl.conn) ≡ k
  pub listed :
      (k : List ℕ) (cl : Client)
      → get k s.clients ≡ some cl
      → IsListed (get k s.client_status) cl.conn
  pub known : (k : List ℕ) (cl : Client) → get k s.clients ≡ some cl → cl.conn < s.next_conn

module _ {Conn : Type 0} (q : Quiche Conn) (ids : IdLaws q) where
  record_written_conn :
      (c : Conn) (ps : Partials) (id : ℕ) (resp : PartialResponse) (o : Option ℕ)
      → (record_written q c ps id resp o).0 ≡ c
  unfolding record_written
  record_written_conn c ps id resp none = refl
  record_written_conn c ps id resp (some k) = refl

  resume_id :
      (c c' : Conn) (ps ps' : Partials) (id : ℕ) (resp : PartialResponse)
      → resume q c ps id resp ≡ ok (c', ps')
      → q.source_id c' ≡ q.source_id c
  unfolding resume
  resume_id c c' ps ps' id resp h =
      let sent = q.stream_send c id (drop resp.written resp.body) true in
      ground (
        arith,
        ids.stream_send_id c id (drop resp.written resp.body) true,
        record_written_conn sent.1 ps id resp (taken sent.0),
      )

  handle_writable_id :
      (c c' : Conn) (ps ps' : Partials) (id : ℕ)
      → handle_writable q c ps id ≡ ok (c', ps')
      → q.source_id c' ≡ q.source_id c
  unfolding handle_writable
  handle_writable_id c c' ps ps' id h = elim (Option-cases (get id ps)) [
    | inl e ↦ ground arith
    | inr (resp, e) ↦ resume_id c c' ps ps' id resp (ground arith)
  ]

  pub handle_all_writable_id :
      (c c' : Conn) (ps ps' : Partials) (l : List ℕ)
      → handle_all_writable q c ps l ≡ ok (c', ps')
      → q.source_id c' ≡ q.source_id c
  unfolding handle_all_writable
  handle_all_writable_id c c' ps ps' [] h = ground arith
  handle_all_writable_id c c' ps ps' (id ∷ l) h =
      go (handle_writable q c ps id) refl (λ d qs. handle_all_writable_id d c' qs ps' l)
    where
      go :
          (r : Run (Conn × Partials))
          → handle_writable q c ps id ≡ r
          → ((d : Conn) (qs : Partials)
              → handle_all_writable q d qs l ≡ ok (c', ps')
              → q.source_id c' ≡ q.source_id d)
          → q.source_id c' ≡ q.source_id c
      go (ok (d, qs)) e ih = ih d qs (rw e at h) ∙ handle_writable_id c d ps qs id e
      go err e ih = absurd (ground arith)
      go panicked e ih = absurd (ground arith)

  pub update_id :
      (h : ℕ → Conn) (r i : ℕ) (c : Conn)
      → q.source_id c ≡ q.source_id (h r)
      → q.source_id (update h r c i) ≡ q.source_id (h i)
  update_id h r i c e = ground (arith, nat_beq_iff r i)

  -- A client's connection is replaced by one with the same id.
  pub Tracked-update :
      (s : Server Conn) (k : List ℕ) (client : Client) (c : Conn)
      → get k s.clients ≡ some client
      → q.source_id c ≡ q.source_id (s.conn client.conn)
      → Tracked q s
      → Tracked q (record s { conn = update s.conn client.conn c })
  Tracked-update s k client c g e t = record {
    unique = t.unique;
    own_id = λ j cl h. update_id s.conn client.conn cl.conn c e ∙ t.own_id j cl h;
    listed = t.listed;
    known = t.known;
  }

  pub Tracked-partials :
      (s : Server Conn) (k : List ℕ) (client : Client) (ps : Partials)
      → get k s.clients ≡ some client
      → Tracked q s
      → Tracked q
          (record s { clients = insert k (record client { partial_responses = ps }) s.clients })
  Tracked-partials s k client ps g t =
      let now =
        λ (j : List ℕ). get-insert k j (record client { partial_responses = ps }) s.clients in
      record {
        unique = insert-IsUnique k _ s.clients t.unique;
        own_id =
            λ j cl h. ground (arith, now j, bytes_beq_iff k j, t.own_id j cl, t.own_id k client g);
        listed =
            λ j cl h. ground (arith, now j, bytes_beq_iff k j, t.listed j cl, t.listed k client g);
        known =
            λ j cl h. ground (arith, now j, bytes_beq_iff k j, t.known j cl, t.known k client g);
      }

  -- A new client under the id of its connection.
  pub Tracked-add_client :
      (env : Env Conn) (s : Server Conn) (scid : List ℕ) (c : Conn)
      → q.source_id c ≡ scid
      → Tracked q s
      → Tracked q (add_client q env s scid c)
  unfolding add_client
  Tracked-add_client env s scid c e t =
      let new : Client = record { conn = s.next_conn; partial_responses = [] } in
      let now = λ (j : List ℕ). get-insert scid j new s.clients in
      let status = λ (j : List ℕ). get-insert scid j (s.next_conn, connected) s.client_status in
      record {
        unique = insert-IsUnique scid new s.clients t.unique;
        own_id = λ j cl h. ground (
          arith,
          now j,
          bytes_beq_iff scid j,
          t.own_id j cl,
          t.known j cl,
          nat_beq_iff s.next_conn cl.conn,
        );
        listed = λ j cl h. ground (arith, now j, status j, t.listed j cl);
        known = λ j cl h. ground (arith, now j, t.known j cl);
      }
