-- ===== src/Server/Partial/Delivery.antt =====
-- What is pending on a stream in src/server.rs, and what a call of `stream_send` does to it.
use nanwei_api_rust.Prelude.{
  ℕ, ◌+◌, ◌≤◌, ◌<◌, ◌≡◌, refl, sym, ap, ◌∙◌, inl, inr, Bool, true, List, [], ◌++◌, Option, none,
  some, length, take, drop, arith, nat_beq, nat_beq_iff, if◌then◌else◌, nat_eq, Bool-cases,
  length-drop, le→leb, take-append-drop, drop-add, drop_all,
}
use mathlib.Core.List.{append-nil, append_assoc}
use nanwei_api_rust.Prelude.Map.{get, insert, remove, get-insert, get-remove}
use nanwei_api_rust.Prelude.Run.{ok}
use nanwei_api_rust.Quiche.{Quiche, Result, success, failure, is_done, SendLaws}
use nanwei_api_rust.Server.Partial.{PartialResponse, Partials, taken, record_written, resume}

abbrev pub pending : Option PartialResponse → List ℕ
pending none = []
pending (some r) = drop r.written r.body

-- What is still to be sent on a stream.
abbrev pub remaining : Partials → ℕ → List ℕ
remaining ps id = pending (get id ps)

-- Every answer in the map has something left to send.
pub record IsPending (ps : Partials) : Type 0 where
  pub unfinished : (id : ℕ) (r : PartialResponse) → get id ps ≡ some r → r.written < length r.body

pub IsPending-insert :
    (id : ℕ) (r : PartialResponse) (ps : Partials)
    → r.written < length r.body
    → IsPending ps
    → IsPending (insert id r ps)
IsPending-insert id r ps h p = record {
  unfinished = λ j x e. ground (arith, get-insert id j r ps, p.unfinished j x);
}

pub IsPending-remove : (id : ℕ) (ps : Partials) → IsPending ps → IsPending (remove id ps)
IsPending-remove id ps p = record {
  unfinished = λ j x e. ground (arith, get-remove id j ps, p.unfinished j x);
}

pub remaining-insert :
    (id j : ℕ) (r : PartialResponse) (ps : Partials)
    → remaining (insert id r ps) j
      ≡ (if nat_beq id j then drop r.written r.body else remaining ps j)
remaining-insert id j r ps =
    ap pending (get-insert id j r ps)
    ∙ elim (Bool-cases (nat_beq id j)) [ inl h ↦ rw h | inr h ↦ rw h ]

remaining-remove :
    (id j : ℕ) (ps : Partials)
    → remaining (remove id ps) j ≡ (if nat_beq id j then [] else remaining ps j)
remaining-remove id j ps =
    ap pending (get-remove id j ps)
    ∙ elim (Bool-cases (nat_beq id j)) [ inl h ↦ rw h | inr h ↦ rw h ]

module _ {Conn : Type 0} (q : Quiche Conn) (sent : Conn → ℕ → List ℕ) (laws : SendLaws q sent) where
  pub taken-sent :
      (c : Conn) (id : ℕ) (buf : List ℕ) (fin : Bool) (k : ℕ) (r : Result ℕ)
      → (q.stream_send c id buf fin).0 ≡ r
      → taken r ≡ some k
      → (k ≤ length buf) × (sent (q.stream_send c id buf fin).1 id ≡ sent c id ++ take k buf)
  taken-sent c id buf fin k (success n) e h =
      ground (arith, laws.taken_le c id buf fin n e, laws.sent_success c id buf fin n e)
  taken-sent c id buf fin k (failure x) e h = elim (Bool-cases (is_done x)) [
    | inl d ↦ ground (arith, laws.sent_failure c id buf fin x e, append-nil (sent c id))
    | inr d ↦ ground arith
  ]

  failed-sent :
      (c : Conn) (id : ℕ) (buf : List ℕ) (fin : Bool) (r : Result ℕ)
      → (q.stream_send c id buf fin).0 ≡ r
      → taken r ≡ none
      → sent (q.stream_send c id buf fin).1 id ≡ sent c id
  failed-sent c id buf fin (success n) e h = ground arith
  failed-sent c id buf fin (failure x) e h = laws.sent_failure c id buf fin x e

  pub failed_all :
      (c : Conn) (id j : ℕ) (buf : List ℕ)
      → taken (q.stream_send c id buf true).0 ≡ none
      → sent (q.stream_send c id buf true).1 j ≡ sent c j
  failed_all c id j buf t = elim (Bool-cases (nat_beq id j)) [
    | inl h ↦ rw (← (nat_beq_iff id j).0 h) (failed-sent c id buf true _ refl t)
    | inr h ↦ laws.sent_other c id j buf true (λ x. ground (arith, x))
  ]

  pub record_written-IsPending :
      (c : Conn) (ps : Partials) (id : ℕ) (resp : PartialResponse) (k : ℕ)
      → resp.written + k ≤ length resp.body
      → IsPending ps
      → IsPending (record_written q c ps id resp (some k)).1
  unfolding record_written
  record_written-IsPending c ps id resp k h p =
      elim (Bool-cases (nat_beq (resp.written + k) (length resp.body))) [
        | inl e ↦ rw e (IsPending-remove id ps p)
        | inr e ↦ rw e (IsPending-insert id _ ps (ground arith) p)
      ]

  pub record_written-remaining :
      (c : Conn) (ps : Partials) (id j : ℕ) (resp : PartialResponse) (k : ℕ)
      → remaining (record_written q c ps id resp (some k)).1 j
        ≡ (if nat_beq id j then drop k (drop resp.written resp.body) else remaining ps j)
  unfolding record_written
  record_written-remaining c ps id j resp k =
      rw (← drop-add resp.written k resp.body)
        (elim (Bool-cases (nat_beq (resp.written + k) (length resp.body))) [
          | inl e ↦ rw e (
              remaining-remove id j ps
              ∙ ap (λ b. if nat_beq id j then b else remaining ps j)
                  (sym (drop_all _ resp.body (omega (arith, (nat_beq_iff _ _).0 e)))))
          | inr e ↦ rw e (remaining-insert id j _ ps)
        ])

  pub resume-taken :
      (c : Conn) (ps : Partials) (id : ℕ) (resp : PartialResponse) (o : Option ℕ)
      → resp.written ≤ length resp.body
      → taken (q.stream_send c id (drop resp.written resp.body) true).0 ≡ o
      → resume q c ps id resp
        ≡ ok (
            record_written q (q.stream_send c id (drop resp.written resp.body) true).1 ps id resp o)
  unfolding resume
  resume-taken c ps id resp o h t = rw (le→leb _ _ h) (rw t)

  -- What the connection is after the call of `stream_send` for the answer.
  abbrev pub after_send : Conn → ℕ → PartialResponse → Conn
  after_send c id resp = (q.stream_send c id (drop resp.written resp.body) true).1

  pub conserved_self :
      (c : Conn) (id : ℕ) (body : List ℕ) (k : ℕ)
      → taken (q.stream_send c id body true).0 ≡ some k
      → sent (q.stream_send c id body true).1 id ++ drop k body ≡ sent c id ++ body
  conserved_self c id body k t = rw ((taken-sent c id body true k _ refl t).1) (
      append_assoc (sent c id) (take k body) (drop k body)
      ∙ ap (◌++◌ (sent c id)) (take-append-drop k body))

  pub record_written-conserves :
      (c : Conn) (ps : Partials) (id : ℕ) (resp : PartialResponse) (k j : ℕ)
      → get id ps ≡ some resp
      → taken (q.stream_send c id (drop resp.written resp.body) true).0 ≡ some k
      → sent (after_send c id resp) j
          ++ remaining (record_written q (after_send c id resp) ps id resp (some k)).1 j
        ≡ sent c j ++ remaining ps j
  record_written-conserves c ps id resp k j e t =
      rw (record_written-remaining (after_send c id resp) ps id j resp k)
        (elim (Bool-cases (nat_beq id j)) [
          | inl h ↦
              rw (h, ← (nat_beq_iff id j).0 h, e)
                (conserved_self c id (drop resp.written resp.body) k t)
          | inr h ↦
              rw
                (
                  h,
                  laws.sent_other c id j (drop resp.written resp.body) true
                      (λ x. ground (arith, x)),
                )
                refl
        ])

  pub fits :
      (c : Conn) (id : ℕ) (resp : PartialResponse) (k : ℕ)
      → taken (q.stream_send c id (drop resp.written resp.body) true).0 ≡ some k
      → resp.written ≤ length resp.body
      → resp.written + k ≤ length resp.body
  fits c id resp k t h = omega (
    arith,
    (taken-sent c id (drop resp.written resp.body) true k _ refl t).0,
    length-drop resp.written resp.body,
  )
