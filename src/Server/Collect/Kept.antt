-- ===== src/Server/Collect/Kept.antt =====
-- Which clients `server_loop` of src/server.rs keeps.
use nanwei_api_rust.Prelude.{
  ℕ, ◌≡◌, refl, sym, subst, ◌∙◌, Bool, true, false, not, ◌&&◌, List, [], ◌∷◌, Option, none, some,
  arith, Option-cases, inl, inr, if◌then◌else◌, bytes_eq, bytes_beq_iff,
}
use nanwei_api_rust.Prelude.Map.{get, IsUnique}
use nanwei_api_rust.Prelude.Run.{ok}
use nanwei_api_rust.Quiche.{Quiche}
use nanwei_api_rust.World.{ClientStatus, SharedStreams}
use nanwei_api_rust.Server.Packet.{Client, Server, Env}
use nanwei_api_rust.Server.Packet.Tracked.{Tracked, IsListed}
use nanwei_api_rust.Server.Collect.{is_close, is_kept, retain, collect}

module _ {Conn : Type 0} (q : Quiche Conn) (env : Env Conn) where
  -- A client goes when its connection is closed and the program has closed it too.
  abbrev pub is_garbage : Conn → Option (ℕ × ClientStatus) → Bool
  is_garbage c none = false
  is_garbage c (some entry) = q.is_closed c && is_close entry.1

  abbrev pub keep : SharedStreams → (ℕ → Conn) → List ℕ → Option Client → Option Client
  keep st conn k none = none
  keep st conn k (some client) =
      if is_garbage (conn client.conn) (get k st) then none else some client

  pub record Retained (st : SharedStreams) (conn : ℕ → Conn) (m : List (List ℕ × Client))
      : Type 0 where
    pub left : List (List ℕ × Client)
    pub runs : retain q env st conn m ≡ ok left
    pub unique : IsUnique left
    pub finds : (k : List ℕ) → get k left ≡ keep st conn k (get k m)

  is_kept_lem :
      (st : SharedStreams) (c : Conn) (r : ℕ)
      → IsListed (get (q.source_id c) st) r
      → is_kept q env st c ≡ ok (not (is_garbage c (get (q.source_id c) st)))
  unfolding is_kept
  is_kept_lem st c r l = elim (Option-cases (get (q.source_id c) st)) [
    | inl e ↦ absurd (rw e at l)
    | inr (entry, e) ↦ rw e (ground arith)
  ]

  pub retain_lem :
      (st : SharedStreams) (conn : ℕ → Conn) (m : List (List ℕ × Client))
      → IsUnique m
      → ((k : List ℕ) (cl : Client) → get k m ≡ some cl → q.source_id (conn cl.conn) ≡ k)
      → ((k : List ℕ) (cl : Client) → get k m ≡ some cl → IsListed (get k st) cl.conn)
      → Retained st conn m
  unfolding retain get
  retain_lem st conn [] u own listed = record {
    left = [];
    runs = refl;
    unique = tt;
    finds = λ k. refl;
  }
  retain_lem st conn ((k, cl) ∷ m) u own listed =
      go (is_garbage (conn cl.conn) (get k st)) refl (
        retain_lem st conn m u.1 (λ j d h. own j d (tail j d h)) (λ j d h. listed j d (tail j d h)))
    where
      self : get k ((k, cl) ∷ m) ≡ some cl
      self = rw ((bytes_beq_iff k k).1 refl) refl

      tail : (j : List ℕ) (d : Client) → get j m ≡ some d → get j ((k, cl) ∷ m) ≡ some d
      tail j d e = ground (arith, bytes_beq_iff k j, u.0)

      kept : is_kept q env st (conn cl.conn) ≡ ok (not (is_garbage (conn cl.conn) (get k st)))
      kept =
          subst
            (λ i. is_kept q env st (conn cl.conn) ≡ ok (not (is_garbage (conn cl.conn) (get i st))))
            (own k cl self)
            (is_kept_lem st (conn cl.conn) cl.conn
              (subst (λ i. IsListed (get i st) cl.conn) (sym (own k cl self)) (listed k cl self)))

      go :
          (b : Bool)
          → is_garbage (conn cl.conn) (get k st) ≡ b
          → Retained st conn m
          → Retained st conn ((k, cl) ∷ m)
      go false e ih = record {
        left = (k, cl) ∷ ih.left;
        runs = rw (kept, e, ih.runs) refl;
        unique = (ih.finds k ∙ rw u.0 refl, ih.unique);
        finds = λ j. ground (arith, ih.finds j, bytes_beq_iff k j, e);
      }
      go true e ih = record {
        left = ih.left;
        runs = rw (kept, e, ih.runs) refl;
        unique = ih.unique;
        finds = λ j. ground (arith, ih.finds j, bytes_beq_iff k j, e, u.0);
      }

  pub record Collected (s : Server Conn) : Type 0 where
    pub after : Server Conn
    pub runs : collect q env s ≡ ok after
    pub tracked : Tracked q after
    pub status_kept : after.client_status ≡ s.client_status
    pub finds : (k : List ℕ) → get k after.clients ≡ keep s.client_status s.conn k (get k s.clients)

  keep-some :
      (st : SharedStreams) (conn : ℕ → Conn) (k : List ℕ) (o : Option Client) (cl : Client)
      → keep st conn k o ≡ some cl
      → o ≡ some cl
  keep-some st conn k none cl h = h
  keep-some st conn k (some d) cl h = ground arith

  -- When every client stands in the status map under the source id of its connection, the
  -- collection reaches no `unreachable!`: it drops the clients whose connection is closed and whose
  -- status is `Close`, and no others, and leaves the status map as it is.
  pub collect_lem : (s : Server Conn) → Tracked q s → Collected s
  unfolding collect
  collect_lem s t =
      let r = retain_lem s.client_status s.conn s.clients t.unique t.own_id t.listed in
      let was = λ (k : List ℕ) (cl : Client) (h : get k r.left ≡ some cl).
        keep-some s.client_status s.conn k (get k s.clients) cl (sym (r.finds k) ∙ h) in
      record {
        after = record s { clients = r.left };
        runs = rw r.runs refl;
        tracked = record {
          unique = r.unique;
          own_id = λ k cl h. t.own_id k cl (was k cl h);
          listed = λ k cl h. t.listed k cl (was k cl h);
          known = λ k cl h. t.known k cl (was k cl h);
        };
        status_kept = refl;
        finds = r.finds;
      }
