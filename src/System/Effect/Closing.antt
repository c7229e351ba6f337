-- ===== src/System/Effect/Closing.antt =====
-- What `dtp_close` of src/ffi.rs leaves of a server: the ids of its connections, and its status map but
-- for one status.
use nanwei_api_rust.Prelude.{
  ℕ, ◌≡◌, ◌∙◌, Bool, true, List, [], Option, none, some, arith, Bool-cases, inl, inr, ◌==◌, ◌||◌,
  nat_eq, nat_beq_iff, bytes_eq, not, is_some,
}
use nanwei_api_rust.Prelude.Int.{int_eq}
use nanwei_api_rust.Prelude.Map.{get}
use nanwei_api_rust.Prelude.Run.{ok, Always, Always-ok, Always->>=, expect, or_panic, or_panic-ok}
use nanwei_api_rust.Quiche.{Quiche, expect_success, IdLaws}
use nanwei_api_rust.World.{SharedStreams, DtpConnection, update}
use nanwei_api_rust.Api.{DtpClient, World}
use nanwei_api_rust.Ffi.Close.{
  Closed, mark_close, dtp_close, close_established, close_client, close_server,
}
use nanwei_api_rust.System.Sound.{Demoted, left, marked}
use nanwei_api_rust.System.Effect.Transfers.{Kept-refl, Kept-update}
use nanwei_api_rust.System.Effect.Calls.{Leaves, Leaves-refl}

module _ {Conn : Type 0} (q : Quiche Conn) (ids : IdLaws q) where
  module _ (wake : ℕ → Bool) (join : DtpClient → Conn → Option Conn) (debug : Bool)
      (joins : (client : DtpClient) (c c' : Conn)
        → join client c ≡ some c'
        → q.source_id c' ≡ q.source_id c) where
    close_established-Leaves :
        (shared : ℕ) (w : World Conn) (io : DtpConnection)
        → Always (λ r. Leaves q ids shared w r.world) (close_established q wake join debug w io)
    unfolding close_established
    close_established-Leaves shared w io =
        let closed = q.close (w.conn io.conn) true 0 [] in
        Always->>= _ (expect_success closed.0) _ λ _ _.
          Always->>= _ (expect (wake io.waker)) _ λ _ _.
            Always->>= _ (or_panic io.sockid) _ λ sock _.
              Always->>= _ (or_panic (get sock w.api.client_handles)) _ λ client _.
                Always->>= _ (or_panic (join client closed.1)) _ λ c j. record {
                  kept = Kept-update q ids w.conn w.next_ref io.conn c (
                      joins client closed.1 c (or_panic-ok _ c j)
                      ∙ ids.close_id (w.conn io.conn) true 0 []);
                  status = left;
                }

    marked_at :
        (shared ref : ℕ) (id : List ℕ) (streams : ℕ → SharedStreams)
        → Demoted (streams shared) (update streams ref (mark_close id (streams ref)) shared)
    marked_at shared ref id streams = elim (Bool-cases (ref == shared)) [
      | inr b ↦ rw b left
      | inl b ↦ rw b (rw ((nat_beq_iff ref shared).0 b) (marked id))
    ]

    close_server-Leaves :
        (shared : ℕ) (w : World Conn) (io : DtpConnection)
        → Always (λ r. Leaves q ids shared w r.world) (close_server q wake join debug w io)
    unfolding close_server
    close_server-Leaves shared w io = elim (Bool-cases (q.is_closed (w.conn io.conn))) [
      | inr a ↦ rw a (
          Always->>= _ (expect (not debug || is_some io.sockid)) _
            λ _ _. Leaves-refl q ids shared w)
      | inl a ↦ rw a (
          Always->>= _ (or_panic io.conn_id) _ λ id _. Always->>= _ (or_panic io.pconns) _ λ ref _.
            record {
              kept = Kept-refl q ids w.conn w.next_ref;
              status = marked_at shared ref id w.streams;
            })
    ]

    pub dtp_close-Leaves :
        (shared : ℕ) (w : World Conn) (io : Option DtpConnection) (r : Closed Conn)
        → dtp_close q wake join debug w io ≡ ok r
        → Leaves q ids shared w r.world
    unfolding dtp_close close_client
    dtp_close-Leaves shared w none r h =
        let now : r.world ≡ w = ground arith in rw now (Leaves-refl q ids shared w)
    dtp_close-Leaves shared w (some io) r h = elim (Bool-cases io.is_server_side) [
      | inl s ↦
          Always-ok (λ r. Leaves q ids shared w r.world) (close_server q wake join debug w io) r
            (ground arith) (close_server-Leaves shared w io)
      | inr s ↦ elim (Bool-cases (q.is_closed (w.conn io.conn))) [
        | inl c ↦ let now : r.world ≡ w = ground arith in rw now (Leaves-refl q ids shared w)
        | inr c ↦ elim (Bool-cases (q.is_established (w.conn io.conn))) [
          | inl e ↦
              Always-ok (λ r. Leaves q ids shared w r.world)
                (close_established q wake join debug w io) r (ground arith)
                (close_established-Leaves shared w io)
          | inr e ↦ let now : r.world ≡ w = ground arith in rw now (Leaves-refl q ids shared w)
        ]
      ]
    ]
