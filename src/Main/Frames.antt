-- ===== src/Main/Frames.antt =====
-- What `dtp_util_recv` of src/main.rs makes of what `dtp_util_send` sends, and when it gives up.
use nanwei_api_rust.Prelude.{
  ℕ, zero, suc, ◌+◌, ◌<◌, ◌≤◌, ◌≡◌, refl, ap, Bool, true, List, [], ◌∷◌, ◌++◌, some, length,
  take-append, lt→ltb, arith, Bool-cases, inl, inr, ltb,
}
use nanwei_api_rust.Prelude.Int.{ℤ, pos, negsuc}
use nanwei_api_rust.Prelude.Run.{Run, ok}
use nanwei_api_rust.Prelude.Text.{is_utf8}
use nanwei_api_rust.Main.{framed, recv_retry, received_text, dtp_util_recv}

-- Calls that find nothing, before the others.
abbrev pub idle : ℕ → List (ℤ × List ℕ) → List (ℤ × List ℕ)
idle zero calls = calls
idle (suc k) calls = (pos 0, []) ∷ idle k calls

recv_retry-idle :
    (k c n : ℕ) (buf : List ℕ) (calls : List (ℤ × List ℕ))
    → c + k ≤ 20
    → recv_retry c (idle k ((pos (suc n), buf) ∷ calls)) ≡ some (pos (suc n), buf)
unfolding recv_retry
recv_retry-idle zero c n buf calls h = refl
recv_retry-idle (suc k) c n buf calls h =
    rw (recv_retry, lt→ltb c 20 (omega arith)) (recv_retry-idle k (c + 1) n buf calls (omega arith))

recv_retry_enough :
    (calls : List (ℤ × List ℕ)) (c : ℕ)
    → 20 < c + length calls
    → c ≤ 20
    → (r : ℤ × List ℕ) × (recv_retry c calls ≡ some r)
unfolding recv_retry
recv_retry_enough [] c h l = absurd (omega arith)
recv_retry_enough ((pos zero, buf) ∷ calls) c h l = elim (Bool-cases (ltb c 20)) [
  | inl b ↦
      let (r, e) = recv_retry_enough calls (c + 1) (ground arith) (ground arith) in
      (r, rw (recv_retry, b) e)
  | inr b ↦ ((pos 0, buf), rw (recv_retry, b) refl)
]
recv_retry_enough ((pos (suc n), buf) ∷ calls) c h l = ((pos (suc n), buf), refl)
recv_retry_enough ((negsuc zero, buf) ∷ calls) c h l = ((pos 0, buf), refl)
recv_retry_enough ((negsuc (suc n), buf) ∷ calls) c h l = ((negsuc 0, buf), refl)

is_utf8_plus : (text : List ℕ) → is_utf8 (b'+' ∷ text) ≡ is_utf8 text
unfolding is_utf8
is_utf8_plus text = refl

received_text-framed :
    (logs_info : Bool) (text rest : List ℕ)
    → is_utf8 text ≡ true
    → received_text logs_info (pos (suc (length text)), b'+' ∷ (text ++ rest)) ≡ ok text
unfolding received_text
received_text-framed logs_info text rest u =
    rw (take-append text rest, is_utf8_plus text, u) (ground arith)

-- `dtp_util_recv` makes at most 21 calls of `dtp_recv`, whatever they return.
pub dtp_util_recv_enough :
    (logs_info : Bool) (calls : List (ℤ × List ℕ))
    → 20 < length calls
    → (r : Run (List ℕ)) × (dtp_util_recv logs_info calls ≡ some r)
unfolding dtp_util_recv
dtp_util_recv_enough logs_info calls h =
    let (r, e) = recv_retry_enough calls 0 (omega arith) (omega arith) in
    (received_text logs_info r, rw (dtp_util_recv, e) refl)

-- After up to twenty calls that find nothing, a text that `dtp_util_send` has framed, received in one
-- piece at the front of the buffer, comes out of `dtp_util_recv` as it was.
pub dtp_util_recv-framed :
    (logs_info : Bool) (k : ℕ) (text rest : List ℕ) (calls : List (ℤ × List ℕ))
    → k ≤ 20
    → is_utf8 text ≡ true
    → dtp_util_recv logs_info (idle k ((pos (length (framed text)), framed text ++ rest) ∷ calls))
      ≡ some (ok text)
unfolding dtp_util_recv framed
dtp_util_recv-framed logs_info k text rest calls h u =
    rw (dtp_util_recv, recv_retry-idle k 0 (length text) (framed text ++ rest) calls (omega arith))
      (ap some (received_text-framed logs_info text rest u))
