-- ===== src/Server/Partial.antt =====
-- The answers of src/server.rs that a stream takes in parts: `PartialResponse`, `handle_stream` and
-- `handle_writable`. The connection and the map are the ones behind the `Arc<Mutex<_>>` that the
-- functions lock. Logging is left out. Sleeping is left out too.
pub mod Delivery
pub mod Answers
pub mod Fate
use nanwei_api_rust.Prelude.{
  ℕ, ◌+◌, Bool, true, not, false, List, [], ◌∷◌, ◌++◌, Option, none, some, length, drop, ltb, leb,
  nat_beq, if◌then◌else◌, nat_eq,
}
use nanwei_api_rust.Prelude.Map.{get, insert, remove}
use nanwei_api_rust.Prelude.Run.{Run, ok, err, panicked, ◌>>=◌, ◌>>◌, expect, or_panic}
use nanwei_api_rust.Prelude.Text.{is_utf8}
use nanwei_api_rust.Quiche.{Quiche, Result, success, failure, is_done}

pub record PartialResponse : Type 0 where
  pub body : List ℕ
  pub written : ℕ

abbrev pub Partials : Type 0
Partials = List (ℕ × PartialResponse)

-- How many bytes a stream took, where `Done` counts as none; `none` for any other error.
abbrev pub taken : Result ℕ → Option ℕ
taken (success k) = some k
taken (failure e) = if is_done e then some 0 else none

-- The text "收到：", the request, and a line feed.
unfoldable pub reply : List ℕ → List ℕ
reply buf = 0xe6 ∷ 0x94 ∷ 0xb6 ∷ 0xe5 ∷ 0x88 ∷ 0xb0 ∷ 0xef ∷ 0xbc ∷ 0x9a ∷ (buf ++ (0x0a ∷ []))

module _ {Conn : Type 0} (q : Quiche Conn) where
  -- What is left to do once `stream_send` has returned.
  unfoldable pub record_written : Conn → Partials → ℕ → PartialResponse → Option ℕ → Conn × Partials
  record_written c ps id resp none = (c, remove id ps)
  record_written c ps id resp (some k) =
      let written = resp.written + k in
      (
        c,
        if nat_beq written (length resp.body)
            then remove id ps
            else insert id (record resp { written = written }) ps,
      )

  -- The slice `&resp.body[resp.written..]` panics past the end.
  unfoldable pub resume : Conn → Partials → ℕ → PartialResponse → Run (Conn × Partials)
  unfolding record_written
  resume c ps id resp =
      if leb resp.written (length resp.body)
      then (let (r, c') = q.stream_send c id (drop resp.written resp.body) true in
          ok (record_written c' ps id resp (taken r)))
      else panicked

  unfoldable pub handle_writable : Conn → Partials → ℕ → Run (Conn × Partials)
  handle_writable c ps id = elim (get id ps) [ none ↦ ok (c, ps) | some resp ↦ resume c ps id resp ]

  -- The loop of `server_loop` over the writable streams.
  unfoldable pub handle_all_writable : Conn → Partials → List ℕ → Run (Conn × Partials)
  handle_all_writable c ps [] = ok (c, ps)
  handle_all_writable c ps (id ∷ ids) =
      handle_writable c ps id >>= λ s. handle_all_writable s.0 s.1 ids

  -- `handle_stream` from its `stream_send` on; the last part of the result is whether the poll is
  -- to be woken.
  unfoldable pub respond : Conn → Partials → ℕ → List ℕ → Conn × Partials × Bool
  respond c ps id res =
      let (r, c') = q.stream_send c id res true in
      elim (taken r) [
        | none ↦ (c', ps, false)
        | some k ↦ (
          c',
          if ltb k (length res) then insert id (record { body = res; written = k }) ps else ps,
          true,
        )
      ]

  -- `is_request` is the JSON parser and `wake` the waker of the event loop. The message about a stream
  -- that fails locks the connection again, while the `match` around it still holds the lock.
  unfoldable pub handle_stream :
      (is_request : List ℕ → Bool) (wake logs_errors : Bool)
      → Conn
      → Partials
      → ℕ
      → List ℕ
      → Run (Conn × Partials)
  handle_stream is_request wake logs_errors c ps id buf = do
    expect (is_utf8 buf)
    expect (is_request buf)
    let (c', ps', woken) = respond c ps id (reply buf)
    expect (if woken then wake else not logs_errors)
    ok (c', ps')
