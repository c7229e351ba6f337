-- ===== src/Main.antt =====
-- `dtp_util_send` and `dtp_util_recv` of src/main.rs. What `dtp_send` and `dtp_recv` return, call after
-- call, is an argument: a function that has used it up is still trying. Sleeping is left out.
pub mod Frames
pub mod Tasks
pub mod Setup
use nanwei_api_rust.Prelude.{
  ℕ, zero, suc, ◌+◌, Bool, true, false, List, [], ◌∷◌, Option, none, some, take, drop, ltb, nat_beq,
  ◌||◌, not, if◌then◌else◌,
}
use nanwei_api_rust.Prelude.Int.{ℤ, pos, negsuc}
use nanwei_api_rust.Prelude.Run.{Run, ok, panicked, ◌>>=◌, ◌>>◌, expect}
use nanwei_api_rust.Prelude.Text.{is_utf8}

-- What `dtp_util_send` gives to `dtp_send`.
unfoldable pub framed : List ℕ → List ℕ
framed send_data = b'+' ∷ send_data

-- -42 is tried again.
unfoldable pub send_loop : List ℤ → Option ℤ
send_loop [] = none
send_loop (pos n ∷ rets) = some (pos n)
send_loop (negsuc n ∷ rets) = elim (nat_beq n 41) [
  | true ↦ send_loop rets
  | false ↦ some (negsuc n)
]

unfoldable pub dtp_util_send : (wake : Bool) → List ℤ → Option (Run ℤ)
dtp_util_send wake rets = elim (send_loop rets) [
  | none ↦ none
  | some send ↦ some (expect wake >> ok send)
]

-- The result and the buffer of the call that ends the loop; the number is `loop_count`.
unfoldable pub recv_retry : ℕ → List (ℤ × List ℕ) → Option (ℤ × List ℕ)
recv_retry loop_count [] = none
recv_retry loop_count ((pos zero, buf) ∷ calls) = elim (ltb loop_count 20) [
  | true ↦ recv_retry (loop_count + 1) calls
  | false ↦ some (pos 0, buf)
]
recv_retry loop_count ((pos (suc n), buf) ∷ calls) = some (pos (suc n), buf)
recv_retry loop_count ((negsuc zero, buf) ∷ calls) = some (pos 0, buf)
recv_retry loop_count ((negsuc (suc n), buf) ∷ calls) = some (negsuc 0, buf)

-- The text of what was received, without its first byte. `logs_info` is whether the message about the
-- whole text is logged; only then its arguments are computed.
unfoldable pub received_text : (logs_info : Bool) → ℤ × List ℕ → Run (List ℕ)
received_text logs_info (pos zero, buf) = ok []
received_text logs_info (negsuc n, buf) = ok []
received_text logs_info (pos (suc n), buf) = do
  expect (not logs_info || is_utf8 (take (suc n) buf))
  expect (is_utf8 (take n (drop 1 buf)))
  ok (take n (drop 1 buf))

unfoldable pub dtp_util_recv : (logs_info : Bool) → List (ℤ × List ℕ) → Option (Run (List ℕ))
dtp_util_recv logs_info calls = elim (recv_retry 0 calls) [
  | none ↦ none
  | some r ↦ some (received_text logs_info r)
]
