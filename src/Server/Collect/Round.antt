-- ===== src/Server/Collect/Round.antt =====
-- The write loop and the timeouts of `server_loop` in src/server.rs.
use nanwei_api_rust.Prelude.{
  ℕ, suc, ◌+◌, ◌<◌, ◌≤◌, ◌≡◌, refl, ◌∙◌, List, [], ◌∷◌, Option, none, some, arith,
}
use nanwei_api_rust.Prelude.Run.{Run, ok, err, panicked, ◌>>=◌, Always-ok}
use nanwei_api_rust.Quiche.{Quiche, success, IdLaws}
use nanwei_api_rust.World.{update}
use nanwei_api_rust.Outgoing.{Datagram}
use nanwei_api_rust.Server.Packet.{Client, Server, Env}
use nanwei_api_rust.Server.Packet.Tracked.{Tracked, update_id}
use nanwei_api_rust.Server.Collect.{flush_client, flush, time_out}
use nanwei_api_rust.Outgoing.{flush_conn}
use nanwei_api_rust.Outgoing.Enough.{flush_conn_more, flush_conn_enough, flush_conn_id}

module _ {Conn : Type 0} (q : Quiche Conn) (env : Env Conn) where
  -- `send` makes a packet only of what the connection still has to send.
  module _ (pending : Conn → ℕ)
      (sends : (c : Conn) (d : Datagram)
        → (q.send c).0 ≡ success d
        → pending (q.send c).1 < pending c) where
    flush_client_enough :
        (s : Server Conn) (client : Client)
        → (n : ℕ) × (r : Run (Server Conn)) × ((m : ℕ)
            → n ≤ m
            → flush_client q env m s client ≡ some r)
    unfolding flush_client
    flush_client_enough s client =
        let n = suc (pending (s.conn client.conn)) in
        let r =
          flush_conn_enough q env.send_to pending sends n (s.conn client.conn) s.outbox
            (ground arith) in
        (
          n,
          (r.0 >>= λ x. ok (record s { conn = update s.conn client.conn x.0; outbox = x.1 })),
          λ m le.
              rw
                (
                  flush_client,
                  flush_conn_more q env.send_to n m (s.conn client.conn) s.outbox r.0 le r.1,
                )
                refl,
        )

    pub flush_enough :
        (l : List (List ℕ × Client)) (s : Server Conn)
        → (n : ℕ) × (r : Run (Server Conn)) × ((m : ℕ) → n ≤ m → flush q env m s l ≡ some r)
    unfolding flush
    flush_enough [] s = (0, ok s, λ m le. refl)
    flush_enough ((k, client) ∷ l) s =
        let (n, r, e) = flush_client_enough s client in go n r e (flush_enough l)
      where
        go :
            (n : ℕ) (r : Run (Server Conn))
            → ((m : ℕ) → n ≤ m → flush_client q env m s client ≡ some r)
            → ((s : Server Conn)
                → (n : ℕ) × (r : Run (Server Conn)) × ((m : ℕ)
                    → n ≤ m
                    → flush q env m s l ≡ some r))
            → (n : ℕ) × (r : Run (Server Conn)) × ((m : ℕ)
                → n ≤ m
                → flush q env m s ((k, client) ∷ l) ≡ some r)
        go n err e ih = (n, err, λ m le. rw (flush, e m le) refl)
        go n panicked e ih = (n, panicked, λ m le. rw (flush, e m le) refl)
        go n (ok s') e ih =
            let (n', r, e') = ih s' in
            (n + n', r, λ m le. rw (flush, e m (ground arith)) (e' m (ground arith)))

  module _ (ids : IdLaws q) where
    -- A connection is replaced by one with the same id.
    Tracked-conn :
        (s : Server Conn) (r : ℕ) (c : Conn) (out : List Datagram)
        → q.source_id c ≡ q.source_id (s.conn r)
        → Tracked q s
        → Tracked q (record s { conn = update s.conn r c; outbox = out })
    Tracked-conn s r c out e t = record {
      unique = t.unique;
      own_id = λ j cl h. update_id q ids s.conn r cl.conn c e ∙ t.own_id j cl h;
      listed = t.listed;
      known = t.known;
    }

    pub Tracked-flush_client :
        (n : ℕ) (s s' : Server Conn) (client : Client)
        → Tracked q s
        → flush_client q env n s client ≡ some (ok s')
        → Tracked q s'
    unfolding flush_client
    Tracked-flush_client n s s' client t h =
        go (flush_conn q env.send_to n (s.conn client.conn) s.outbox) refl
      where
        go :
            (o : Option (Run (Conn × List Datagram)))
            → flush_conn q env.send_to n (s.conn client.conn) s.outbox ≡ o
            → Tracked q s'
        go none e = absurd (let h' = rw (flush_client, e) at h in ground arith)
        go (some err) e = absurd (let h' = rw (flush_client, e) at h in ground arith)
        go (some panicked) e = absurd (let h' = rw (flush_client, e) at h in ground arith)
        go (some (ok (c, out))) e =
            Always-ok (Tracked q) (ok _) s' (let h' = rw (flush_client, e) at h in ground arith) (
              Tracked-conn s client.conn c out
                (flush_conn_id q env.send_to ids n (s.conn client.conn) c s.outbox out e) t)

    pub Tracked-flush :
        (n : ℕ) (l : List (List ℕ × Client)) (s s' : Server Conn)
        → Tracked q s
        → flush q env n s l ≡ some (ok s')
        → Tracked q s'
    unfolding flush
    Tracked-flush n [] s s' t h = Always-ok (Tracked q) (ok s) s' (ground arith) t
    Tracked-flush n ((k, client) ∷ l) s s' t h =
        go (flush_client q env n s client) refl λ s₁. Tracked-flush n l s₁ s'
      where
        go :
            (o : Option (Run (Server Conn)))
            → flush_client q env n s client ≡ o
            → ((s₁ : Server Conn) → Tracked q s₁ → flush q env n s₁ l ≡ some (ok s') → Tracked q s')
            → Tracked q s'
        go none e ih = absurd (let h' = rw (flush, e) at h in ground arith)
        go (some err) e ih = absurd (let h' = rw (flush, e) at h in ground arith)
        go (some panicked) e ih = absurd (let h' = rw (flush, e) at h in ground arith)
        go (some (ok s₁)) e ih = ih s₁ (Tracked-flush_client n s s₁ client t e) (rw (flush, e) at h)

    pub Tracked-time_out :
        (l : List (List ℕ × Client)) (s : Server Conn)
        → Tracked q s
        → Tracked q (time_out q env s l)
    unfolding time_out
    Tracked-time_out [] s t = t
    Tracked-time_out ((k, client) ∷ l) s t =
        Tracked-time_out l _
          (Tracked-conn s client.conn _ s.outbox (ids.on_timeout_id (s.conn client.conn)) t)
