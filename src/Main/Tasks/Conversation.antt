-- ===== src/Main/Tasks/Conversation.antt =====
-- A client of src/main.rs and the thread that serves it.
use nanwei_api_rust.Prelude.{
  ℕ, ◌≡◌, ◌∙◌, ◌≤◌, refl, Bool, true, List, [], ◌∷◌, ◌++◌, some, length, All, ◌==◌,
}
use nanwei_api_rust.Prelude.Int.{ℤ, pos, int_eq}
use nanwei_api_rust.Prelude.Run.{ok}
use nanwei_api_rust.Prelude.Text.{is_utf8}
use nanwei_api_rust.Main.{framed, send_loop, dtp_util_send, dtp_util_recv}
use nanwei_api_rust.Main.Frames.{idle, dtp_util_recv-framed}
use nanwei_api_rust.Main.Tasks.{
  recv_until, close_until, processed, Served, serve_client, Asked, run_client,
}

-- Calls of `dtp_util_recv` that give up without a text.
abbrev pub Fruitless : (logs_info : Bool) → List (List (ℤ × List ℕ)) → Type 0
Fruitless logs_info = All λ calls. dtp_util_recv logs_info calls ≡ some (ok [])

-- Such calls, and then one that gets the framed bytes after up to twenty empty results.
abbrev pub then_gets : List (List (ℤ × List ℕ)) → ℕ → List ℕ → List ℕ → List (List (ℤ × List ℕ))
then_gets [] k bytes rest = idle k ((pos (length bytes), bytes ++ rest) ∷ []) ∷ []
then_gets (calls ∷ waits) k bytes rest = calls ∷ then_gets waits k bytes rest

pub recv_until-framed :
    (logs_info : Bool) (waits : List (List (ℤ × List ℕ))) (k b : ℕ) (text rest : List ℕ)
    → k ≤ 20
    → is_utf8 (b ∷ text) ≡ true
    → Fruitless logs_info waits
    → recv_until logs_info (then_gets waits k (framed (b ∷ text)) rest) ≡ some (ok (b ∷ text))
unfolding recv_until
recv_until-framed logs_info [] k b text rest h u f =
    rw (recv_until, dtp_util_recv-framed logs_info k (b ∷ text) rest [] h u) refl
recv_until-framed logs_info (calls ∷ waits) k b text rest h u f =
    rw (recv_until, f.0) (recv_until-framed logs_info waits k b text rest h u f.1)

is_utf8-processed : (text : List ℕ) → is_utf8 (processed text) ≡ is_utf8 text
unfolding is_utf8 processed
is_utf8-processed text = refl

dtp_util_send_lem :
    (rets : List ℤ) (ret : ℤ) → send_loop rets ≡ some ret → dtp_util_send true rets ≡ some (ok ret)
unfolding dtp_util_send
dtp_util_send_lem rets ret h = rw (dtp_util_send, h) refl

-- A client and the thread that serves it understand each other. Each side's sending ends, the wakers
-- work, and each side gets the bytes that the other has sent, in one piece, after any number of fruitless
-- calls of `dtp_util_recv`; and `dtp_close` returns 1 to the thread at last. Then the thread receives
-- the client's message, and the client's result is this message with "[processed]" before it.
pub serve_client-run_client :
    (logs_s logs_c : Bool) (b : ℕ) (msg : List ℕ) (waits_s waits_c : List (List (ℤ × List ℕ)))
    (k_s k_c : ℕ) (rest_s rest_c : List ℕ) (rets_s rets_c closes : List ℤ) (ret_s ret_c ret : ℤ)
    → is_utf8 (b ∷ msg) ≡ true
    → k_s ≤ 20
    → k_c ≤ 20
    → Fruitless logs_s waits_s
    → Fruitless logs_c waits_c
    → send_loop rets_s ≡ some ret_s
    → send_loop rets_c ≡ some ret_c
    → close_until closes ≡ some tt
    → (served : Served) × (asked : Asked) × (serve_client logs_s true
          (then_gets waits_s k_s asked.payload rest_s)
          rets_s
          closes
        ≡ some (ok served))
      × (run_client logs_c true (b ∷ msg) rets_c (then_gets waits_c k_c served.payload rest_c) ret
          ≡ some (ok asked))
      × (served.received ≡ b ∷ msg)
      × (asked.result ≡ processed (b ∷ msg))
unfolding serve_client run_client processed
serve_client-run_client logs_s logs_c b msg waits_s waits_c k_s k_c rest_s rest_c rets_s rets_c
      closes ret_s ret_c ret u h_s h_c f_s f_c s_s s_c c =
    let r_s = recv_until-framed logs_s waits_s k_s b msg rest_s h_s u f_s in
    let r_c =
      recv_until-framed logs_c waits_c k_c _ _ rest_c h_c (is_utf8-processed (b ∷ msg) ∙ u) f_c in
    (
      record { received = b ∷ msg; payload = framed (processed (b ∷ msg)); sent = ret_s },
      record {
        payload = framed (b ∷ msg);
        sent = ret_c;
        result = processed (b ∷ msg);
        closed = ret == pos 1;
      },
      rw (serve_client, r_s, dtp_util_send_lem rets_s ret_s s_s, c) refl,
      rw (run_client, dtp_util_send_lem rets_c ret_c s_c, r_c) refl,
      refl,
      refl,
    )
