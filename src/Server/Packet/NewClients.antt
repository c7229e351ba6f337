-- ===== src/Server/Packet/NewClients.antt =====
-- Which packets make a new client in `server_loop` of src/server.rs.
use nanwei_api_rust.Prelude.{
  ℕ, ◌≡◌, ap, ◌∙◌, List, none, some, arith, inl, inr, nat_eq, bytes_eq, length, take, leb,
}
use nanwei_api_rust.Prelude.Map.{get}
use nanwei_api_rust.Prelude.Run.{ok, or_panic, expect, Always, Always->>=, Always-ok, or_panic-ok}
use nanwei_api_rust.Quiche.{Quiche, success, SocketAddr, Header}
use nanwei_api_rust.Outgoing.{Datagram}
use nanwei_api_rust.Server.Packet.{
  Client, Server, Env, Control, Admission, turned_away, admitted, find_client, feed, process,
  read_header, read_packet,
}
use nanwei_api_rust.Server.Packet.Changes.{Same, Same-feed}
use nanwei_api_rust.Server.Packet.Grants.{Granted, OnlyGranted, Outcome, Outcome-find_client}

module _ {Conn : Type 0} (q : Quiche Conn) (env : Env Conn) where
  Granted-Same :
      (hdr : Header) (from : SocketAddr) (s s' s'' : Server Conn)
      → OnlyGranted q env hdr from s s'
      → Same q env s' s''
      → OnlyGranted q env hdr from s s''
  Granted-Same hdr from s s' s'' o same k h = elim (o k h) [
    | inl n ↦ inl (ground (arith, same.keys k))
    | inr g ↦ inr (record {
      key = g.key;
      ty = g.ty;
      version = g.version;
      token = g.token;
      has_token = g.has_token;
      odcid = g.odcid;
      validated = g.validated;
      conn = g.conn;
      status = ap (get k) same.status ∙ g.status;
    })
  ]

  Granted-process :
      (hdr : Header) (d : Datagram) (s : Server Conn) (a : Admission Conn)
      → Outcome q env hdr d.1 s a
      → Always (λ r. OnlyGranted q env hdr d.1 s r.1) (process q env d a)
  unfolding process
  Granted-process hdr d s (turned_away control s') o = o
  Granted-process hdr d s (admitted key s') o =
      Always->>= _ (or_panic (get key s'.clients)) _ λ client g.
        Always->>= _ (feed q env s' d key client) _ λ s'' e. Granted-Same hdr d.1 s s' s'' o (
          Always-ok (Same q env s') _ s'' e
            (Same-feed q env s' d key client (or_panic-ok _ client g)))

  -- A key that no client has before a packet and one has after it is the destination id of the
  -- packet, the packet is an Initial one of a supported version, its token is one that
  -- `validate_token` accepts for the sender, and the client's entry in the status map is
  -- `Connected`.
  pub read_packet-Granted :
      (s s' : Server Conn) (d : Datagram) (hdr : Header) (control : Control) (k : List ℕ)
      (client : Client)
      → env.from_slice d.0 ≡ success hdr
      → read_packet q env s d ≡ ok (control, s')
      → get k s.clients ≡ none
      → get k s'.clients ≡ some client
      → Granted q env hdr d.1 k s'
  unfolding read_packet read_header
  read_packet-Granted s s' d hdr control k client e h before after =
      elim (Always-ok (λ r. OnlyGranted q env hdr d.1 s r.1) (read_header q env s d hdr)
        (control, s') (rw (read_packet, e) at h)
        (Always->>= _ (expect (leb env.max_conn_id_len (length (env.sign hdr.dcid)))) _ λ _ _.
          Always->>= _ (find_client q env s d.1 hdr (take env.max_conn_id_len (env.sign hdr.dcid)))
            _
            λ a w.
              Granted-process hdr d s a
                (Always-ok (Outcome q env hdr d.1 s) _ a w (Outcome-find_client q env s d.1 hdr _)))
        k before) [ inl n ↦ absurd (ground arith) | inr g ↦ g ]
