-- ===== src/Server/Partial/Fate.antt =====
-- The loop of src/server.rs over the writable streams, with streams that fail.
use nanwei_api_rust.Prelude.{
  ℕ, ◌+◌, ◌≡◌, refl, ◌∙◌, inl, inr, true, false, List, [], ◌∷◌, ◌++◌, Option, none, some, drop,
  arith, nat_beq, nat_beq_iff, nat_eq, length, Option-cases, Bool-cases,
}
use nanwei_api_rust.Prelude.Map.{get, get-insert, get-remove}
use nanwei_api_rust.Prelude.Run.{ok}
use nanwei_api_rust.Quiche.{Quiche, SendLaws}
use nanwei_api_rust.Server.Partial.{
  PartialResponse, Partials, taken, record_written, handle_writable, handle_all_writable,
}
use nanwei_api_rust.Server.Partial.Delivery.{
  remaining, IsPending, after_send, fits, resume-taken, record_written-IsPending,
  record_written-conserves, IsPending-remove, failed_all,
}

get-record_written :
    {Conn : Type 0} (q : Quiche Conn) (c : Conn) (ps : Partials) (id j : ℕ) (resp : PartialResponse)
    (o : Option ℕ)
    → nat_beq id j ≡ false
    → get j (record_written q c ps id resp o).1 ≡ get j ps
unfolding record_written
get-record_written q c ps id j resp none n = ground (arith, get-remove id j ps)
get-record_written q c ps id j resp (some k) n =
    elim (Bool-cases (nat_beq (resp.written + k) (length resp.body))) [
      | inl e ↦ rw e (ground (arith, get-remove id j ps))
      | inr e ↦
          rw e (ground (arith, get-insert id j (record resp { written = resp.written + k }) ps))
    ]

module _ {Conn : Type 0} (q : Quiche Conn) (sent : Conn → ℕ → List ℕ) (laws : SendLaws q sent) where
  -- What becomes of the pending bytes of a stream: the bytes taken followed by the bytes pending are
  -- what they were, or a call of `stream_send` with all that was then pending has failed. The stream
  -- has then taken just what it had taken before that call, and nothing is pending on it.
  pub data Fate (c : Conn) (ps : Partials) (c' : Conn) (ps' : Partials) (j : ℕ) : Type 0 where
    delivered : sent c' j ++ remaining ps' j ≡ sent c j ++ remaining ps j → Fate c ps c' ps' j
    dropped :
        (before : Conn) (lost : List ℕ)
        → taken (q.stream_send before j lost true).0 ≡ none
        → sent before j ++ lost ≡ sent c j ++ remaining ps j
        → sent c' j ≡ sent before j
        → get j ps' ≡ none
        → Fate c ps c' ps' j

  -- A result of serving some streams.
  record Served (c : Conn) (ps : Partials) (c' : Conn) (ps' : Partials) : Type 0 where
    pending : IsPending ps'
    fate : (j : ℕ) → Fate c ps c' ps' j
    quiet : (j : ℕ) → get j ps ≡ none → (get j ps' ≡ none) × (sent c' j ≡ sent c j)

  Served-refl : (c : Conn) (ps : Partials) → IsPending ps → Served c ps c ps
  Served-refl c ps p = record { pending = p; fate = λ j. delivered refl; quiet = λ j h. (h, refl) }

  Fate-trans :
      (c c₁ c₂ : Conn) (ps ps₁ ps₂ : Partials) (j : ℕ)
      → Fate c ps c₁ ps₁ j
      → Served c₁ ps₁ c₂ ps₂
      → Fate c₁ ps₁ c₂ ps₂ j
      → Fate c ps c₂ ps₂ j
  Fate-trans c c₁ c₂ ps ps₁ ps₂ j (delivered e) s (delivered f) = delivered (f ∙ e)
  Fate-trans c c₁ c₂ ps ps₁ ps₂ j (delivered e) s (dropped before lost t f g h) =
      dropped before lost t (f ∙ e) g h
  Fate-trans c c₁ c₂ ps ps₁ ps₂ j (dropped before lost t e g h) s f =
      dropped before lost t e ((s.quiet j h).1 ∙ g) (s.quiet j h).0

  Served-trans :
      (c c₁ c₂ : Conn) (ps ps₁ ps₂ : Partials)
      → Served c ps c₁ ps₁
      → Served c₁ ps₁ c₂ ps₂
      → Served c ps c₂ ps₂
  Served-trans c c₁ c₂ ps ps₁ ps₂ s t = record {
    pending = t.pending;
    fate = λ j. Fate-trans c c₁ c₂ ps ps₁ ps₂ j (s.fate j) t (t.fate j);
    quiet = λ j h. let (x, y) = s.quiet j h in let (x', y') = t.quiet j x in (x', y' ∙ y);
  }

  -- A stream without a pending answer is not the one that is served.
  recorded-quiet :
      (c : Conn) (ps : Partials) (id : ℕ) (resp : PartialResponse) (o : Option ℕ)
      → get id ps ≡ some resp
      → (j : ℕ) → get j ps ≡ none
      → (get j (record_written q (after_send q sent laws c id resp) ps id resp o).1 ≡ none)
        × (sent (after_send q sent laws c id resp) j ≡ sent c j)
  recorded-quiet c ps id resp o e j h =
      let n : nat_beq id j ≡ false = ground (arith, nat_beq_iff id j) in
      (
        get-record_written q (after_send q sent laws c id resp) ps id j resp o n ∙ h,
        laws.sent_other c id j (drop resp.written resp.body) true
            (λ x. ground (arith, x, nat_beq_iff id j)),
      )

  taken-Served :
      (c : Conn) (ps : Partials) (id : ℕ) (resp : PartialResponse) (k : ℕ)
      → IsPending ps
      → get id ps ≡ some resp
      → taken (q.stream_send c id (drop resp.written resp.body) true).0 ≡ some k
      → Served c ps
          (after_send q sent laws c id resp)
          (record_written q (after_send q sent laws c id resp) ps id resp (some k)).1
  taken-Served c ps id resp k p e t =
      let w = p.unfinished id resp e in
      record {
        pending =
            record_written-IsPending q sent laws (after_send q sent laws c id resp) ps id resp k
              (fits q sent laws c id resp k t (omega arith)) p;
        fate = λ j. delivered (record_written-conserves q sent laws c ps id resp k j e t);
        quiet = recorded-quiet c ps id resp (some k) e;
      }

  failed-Fate :
      (c : Conn) (ps : Partials) (id : ℕ) (resp : PartialResponse)
      → get id ps ≡ some resp
      → taken (q.stream_send c id (drop resp.written resp.body) true).0 ≡ none
      → (j : ℕ)
      → Fate c ps
          (after_send q sent laws c id resp)
          (record_written q (after_send q sent laws c id resp) ps id resp none).1
          j
  unfolding record_written
  failed-Fate c ps id resp e t j =
      let same = failed_all q sent laws c id j (drop resp.written resp.body) t in
      elim (Bool-cases (nat_beq id j)) [
        | inl h ↦ rw (← (nat_beq_iff id j).0 h) (
            dropped c (drop resp.written resp.body) t (rw e refl)
              (failed_all q sent laws c id id (drop resp.written resp.body) t)
              (ground (arith, get-remove id id ps)))
        | inr h ↦ delivered (
            rw (same, get-record_written q (after_send q sent laws c id resp) ps id j resp none h)
              refl)
      ]

  failed-Served :
      (c : Conn) (ps : Partials) (id : ℕ) (resp : PartialResponse)
      → IsPending ps
      → get id ps ≡ some resp
      → taken (q.stream_send c id (drop resp.written resp.body) true).0 ≡ none
      → Served c ps
          (after_send q sent laws c id resp)
          (record_written q (after_send q sent laws c id resp) ps id resp none).1
  unfolding record_written
  failed-Served c ps id resp p e t = record {
    pending = IsPending-remove id ps p;
    fate = failed-Fate c ps id resp e t;
    quiet = recorded-quiet c ps id resp none e;
  }

  handle_writable-Served :
      (c : Conn) (ps : Partials) (id : ℕ)
      → IsPending ps
      → (c' : Conn) × (ps' : Partials) × (handle_writable q c ps id ≡ ok (c', ps'))
        × Served c ps c' ps'
  unfolding handle_writable record_written
  handle_writable-Served c ps id p = elim (Option-cases (get id ps)) [
    | inl e ↦ (c, ps, rw (e, handle_writable) refl, Served-refl c ps p)
    | inr (resp, e) ↦
        let w = p.unfinished id resp e in
        let runs : (o : Option ℕ)
            → taken (q.stream_send c id (drop resp.written resp.body) true).0 ≡ o
            → handle_writable q c ps id
              ≡ ok (record_written q (after_send q sent laws c id resp) ps id resp o) =
          λ o t.
            rw (e, handle_writable) (resume-taken q sent laws c ps id resp o (omega arith) t) in
        elim (Option-cases (taken (q.stream_send c id (drop resp.written resp.body) true).0)) [
          | inl t ↦ (_, _, runs none t, failed-Served c ps id resp p e t)
          | inr (k, t) ↦ (_, _, runs (some k) t, taken-Served c ps id resp k p e t)
        ]
  ]

  handle_all_writable-Served :
      (c : Conn) (ps : Partials) (ids : List ℕ)
      → IsPending ps
      → (c' : Conn) × (ps' : Partials) × (handle_all_writable q c ps ids ≡ ok (c', ps'))
        × Served c ps c' ps'
  unfolding handle_all_writable
  handle_all_writable-Served c ps [] p = (c, ps, refl, Served-refl c ps p)
  handle_all_writable-Served c ps (id ∷ ids) p =
      let (c₁, ps₁, e, s) = handle_writable-Served c ps id p in
      let (c₂, ps₂, f, t) = handle_all_writable-Served c₁ ps₁ ids s.pending in
      (c₂, ps₂, rw e f, Served-trans c c₁ c₂ ps ps₁ ps₂ s t)

  -- The loop over the writable streams, in any order and whether streams fail or not, on a map whose
  -- answers all have bytes left: it does not panic, every answer that stays in the map has bytes left, and, for each stream, the bytes taken
  -- followed by the bytes pending are what they were, unless a call of `stream_send` on that stream with
  -- all that was then pending has failed. Then the stream has taken what it had taken before that call,
  -- just these bytes are lost, and the stream has no pending answer.
  pub handle_all_writable-Fate :
      (c : Conn) (ps : Partials) (ids : List ℕ)
      → IsPending ps
      → (c' : Conn) × (ps' : Partials) × (handle_all_writable q c ps ids ≡ ok (c', ps'))
        × IsPending ps'
        × ((j : ℕ) → Fate c ps c' ps' j)
  handle_all_writable-Fate c ps ids p =
      let (c', ps', e, s) = handle_all_writable-Served c ps ids p in (c', ps', e, s.pending, s.fate)
