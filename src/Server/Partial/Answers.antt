-- ===== src/Server/Partial/Answers.antt =====
-- The first part of an answer of src/server.rs: `handle_stream`.
use mathlib.Core.List.{append-nil}
use nanwei_api_rust.Prelude.{
  nat_beq_iff, nat_beq, ℕ, ◌≡◌, ◌≢◌, sym, ◌∙◌, inl, inr, Bool, true, List, [], ◌++◌, none, some,
  length, drop, arith, ltb, nat_beq_self, nat_beq_ne, ltb→lt, if◌then◌else◌, nat_eq, Option-cases,
  Bool-cases, drop_all,
}
use nanwei_api_rust.Prelude.Map.{insert}
use nanwei_api_rust.Prelude.Run.{ok}
use nanwei_api_rust.Prelude.Text.{is_utf8}
use nanwei_api_rust.Quiche.{Quiche, SendLaws}
use nanwei_api_rust.Server.Partial.{Partials, taken, respond, reply, handle_stream}
use nanwei_api_rust.Server.Partial.Delivery.{
  remaining, IsPending, IsPending-insert, remaining-insert, conserved_self,
}

module _ {Conn : Type 0} (q : Quiche Conn) (sent : Conn → ℕ → List ℕ) (laws : SendLaws q sent) where
  -- The map after `handle_stream`, when the stream took k bytes.
  abbrev kept : Partials → ℕ → List ℕ → ℕ → Partials
  kept ps id res k =
      if ltb k (length res) then insert id (record { body = res; written = k }) ps else ps

  respond-taken :
      (c : Conn) (ps : Partials) (id : ℕ) (res : List ℕ) (k : ℕ)
      → taken (q.stream_send c id res true).0 ≡ some k
      → respond q c ps id res ≡ ((q.stream_send c id res true).1, kept ps id res k, true)
  unfolding respond
  respond-taken c ps id res k t = rw (t, respond)

  kept-IsPending :
      (ps : Partials) (id : ℕ) (res : List ℕ) (k : ℕ) → IsPending ps → IsPending (kept ps id res k)
  kept-IsPending ps id res k p = elim (Bool-cases (ltb k (length res))) [
    | inl e ↦ rw e (IsPending-insert id _ ps (ltb→lt _ _ e) p)
    | inr e ↦ rw e p
  ]

  kept-remaining :
      (ps : Partials) (id : ℕ) (res : List ℕ) (k : ℕ)
      → remaining ps id ≡ []
      → remaining (kept ps id res k) id ≡ drop k res
  kept-remaining ps id res k clear = elim (Bool-cases (ltb k (length res))) [
    | inl e ↦ rw e (remaining-insert id id _ ps ∙ rw (nat_beq_self id))
    | inr e ↦ rw e (clear ∙ sym (drop_all k res (ground arith)))
  ]

  kept-remaining_ne :
      (ps : Partials) (id j : ℕ) (res : List ℕ) (k : ℕ)
      → id ≢ j
      → remaining (kept ps id res k) j ≡ remaining ps j
  kept-remaining_ne ps id j res k h = elim (Bool-cases (ltb k (length res))) [
    | inl e ↦ rw e (remaining-insert id j _ ps ∙ rw (nat_beq_ne id j h))
    | inr e ↦ rw e
  ]

  respond_all :
      (c : Conn) (ps : Partials) (id j : ℕ) (res : List ℕ) (k : ℕ)
      → taken (q.stream_send c id res true).0 ≡ some k
      → remaining ps id ≡ []
      → sent (q.stream_send c id res true).1 j ++ remaining (kept ps id res k) j
        ≡ (sent c j ++ remaining ps j) ++ (if nat_beq id j then res else [])
  respond_all c ps id j res k t clear = elim (Bool-cases (nat_beq id j)) [
    | inl h ↦
        rw
          (
            h,
            ← (nat_beq_iff id j).0 h,
            kept-remaining ps id res k clear,
            clear,
            append-nil (sent c id),
          )
          (conserved_self q sent laws c id res k t)
    | inr h ↦
        let n : id ≢ j = λ x. ground (arith, x) in
        rw (h, laws.sent_other c id j res true n, kept-remaining_ne ps id j res k n)
          (sym (append-nil _))
  ]

  -- An answer to a request on a stream with nothing pending, where the stream does not fail:
  -- `handle_stream` does not panic, and, for each stream, the bytes taken followed by the bytes
  -- pending are what they were, with the answer behind them on the stream of the request.
  pub handle_stream-delivers :
      (is_request : List ℕ → Bool) (logs_errors : Bool) (c : Conn) (ps : Partials) (id : ℕ)
      (buf : List ℕ)
      → is_utf8 buf ≡ true
      → is_request buf ≡ true
      → IsPending ps
      → remaining ps id ≡ []
      → taken (q.stream_send c id (reply buf) true).0 ≢ none
      → (c' : Conn) × (ps' : Partials) × (handle_stream q is_request true logs_errors c ps id buf
          ≡ ok (c', ps'))
        × IsPending ps'
        × ((j : ℕ)
            → sent c' j ++ remaining ps' j
              ≡ (sent c j ++ remaining ps j) ++ (if nat_beq id j then reply buf else []))
  unfolding handle_stream
  handle_stream-delivers is_request logs_errors c ps id buf u v p clear alive =
      elim (Option-cases (taken (q.stream_send c id (reply buf) true).0)) [
        | inl t ↦ absurd (alive t)
        | inr (k, t) ↦ (
          (q.stream_send c id (reply buf) true).1,
          kept ps id (reply buf) k,
          rw (u, v, respond-taken c ps id (reply buf) k t),
          kept-IsPending ps id (reply buf) k p,
          λ j. respond_all c ps id j (reply buf) k t clear,
        )
      ]
