-- ===== src/Message/Answers.antt =====
-- What `recv_msg_loop` of src/message.rs answers.
use nanwei_api_rust.Prelude.{
  ℕ, ◌≤◌, ◌≡◌, refl, ap, ◌∙◌, Bool, true, false, List, [], ◌∷◌, ◌++◌, arith, length, if◌then◌else◌,
  Bool-cases, inl, inr, Option, none, some, nat_eq, nat_beq_self,
}
use nanwei_api_rust.Prelude.Map.{get}
use nanwei_api_rust.Prelude.Run.{Run, ok, err, panicked}
use nanwei_api_rust.Quiche.{Quiche, Result, success, failure}
use nanwei_api_rust.Message.{
  DtpMsg, Answer, bytes_read, handle_msg, recv_msg_loop, sent_result, send,
}

-- A read of no bytes, or one that failed.
abbrev pub IsEmptyRead : Result (ℕ × Bool) → Type 0
IsEmptyRead (success r) = r.0 ≡ 0
IsEmptyRead (failure e) = Unit

abbrev pub is_request : DtpMsg → Bool
is_request (DtpMsg.dtp_send _ _ _ _) = true
is_request (DtpMsg.dtp_recv _ _ _) = true
is_request (DtpMsg.dtp_close _ _ _ _) = true
is_request _ = false

-- One answer for each request, in order, to its responder.
pub data Answered : List DtpMsg → List Answer → Type 0 where
  done : Answered [] []
  sent :
      {msgs : List DtpMsg} {answers : List Answer} (buf : List ℕ) (fin : Bool) (id resp : ℕ)
      (r : Result ℕ)
      → Answered msgs answers
      → Answered (DtpMsg.dtp_send buf fin id resp ∷ msgs) ((resp, DtpMsg.dtp_send_ret r) ∷ answers)
  retry :
      {msgs : List DtpMsg} {answers : List Answer} (buf : List ℕ) (fin : Bool) (id resp : ℕ)
      → Answered msgs answers
      → Answered (DtpMsg.dtp_send buf fin id resp ∷ msgs) ((resp, DtpMsg.dtp_send_retry) ∷ answers)
  received :
      {msgs : List DtpMsg} {answers : List Answer} (id buflen resp : ℕ) (r : Result (ℕ × Bool))
      → IsEmptyRead r
      → Answered msgs answers
      → Answered (DtpMsg.dtp_recv id buflen resp ∷ msgs) ((resp, DtpMsg.dtp_recv_ret r) ∷ answers)
  closed :
      {msgs : List DtpMsg} {answers : List Answer} (app : Bool) (code : ℕ) (reason : List ℕ)
      (resp : ℕ) (r : Result (Unit {0}))
      → Answered msgs answers
      → Answered
          (DtpMsg.dtp_close app code reason resp ∷ msgs)
          ((resp, DtpMsg.dtp_close_ret r) ∷ answers)
  no_request :
      {msgs : List DtpMsg} {answers : List Answer} (msg : DtpMsg)
      → is_request msg ≡ false
      → Answered msgs answers
      → Answered (msg ∷ msgs) answers

-- The result of `stream_send` as `send` passes it on.
abbrev pub passed_on : Result ℕ → Run ℕ
passed_on (success size) = ok size
passed_on (failure e) = err

module _ {Conn : Type 0} (q : Quiche Conn) where
  empty_read :
      ((c : Conn) (s n : ℕ) (bytes : List ℕ) (fin : Bool)
        → (q.stream_recv c s n).0 ≡ success (bytes, fin)
        → length bytes ≤ n)
      → (c : Conn) (s : ℕ) (r : Result (List ℕ × Bool)) → (q.stream_recv c s 0).0 ≡ r
      → IsEmptyRead (bytes_read r)
  empty_read fits c s (success (bytes, fin)) e = omega (arith, fits c s 0 bytes fin e)
  empty_read fits c s (failure f) e = tt

  -- When the poll can be woken and a read never gives more than its buffer holds, `recv_msg_loop`
  -- gives each request one answer of its kind, in the order of the requests, and nothing to the other
  -- messages. No `DtpRecv` is answered with bytes, whatever its `buflen` is.
  pub recv_msg_loop-Answered :
      ((c : Conn) (s n : ℕ) (bytes : List ℕ) (fin : Bool)
        → (q.stream_recv c s n).0 ≡ success (bytes, fin)
        → length bytes ≤ n)
      → (msgs : List DtpMsg) (c : Conn)
      → (c' : Conn) × (answers : List Answer) × (recv_msg_loop q true c msgs ≡ ok (c', answers))
        × Answered msgs answers
  unfolding recv_msg_loop handle_msg
  recv_msg_loop-Answered fits [] c = (c, [], refl, Answered.done)
  recv_msg_loop-Answered fits (DtpMsg.dtp_send buf fin id resp ∷ msgs) c =
      elim (Bool-cases (q.is_established c)) [
        | inl b ↦
            let r = q.stream_send c id buf fin in
            let (c', rest, e, a) = recv_msg_loop-Answered fits msgs r.1 in
            (
              c',
              ((resp, DtpMsg.dtp_send_ret r.0) ∷ rest),
              rw (b, e) refl,
              Answered.sent buf fin id resp r.0 a,
            )
        | inr b ↦
            let (c', rest, e, a) = recv_msg_loop-Answered fits msgs c in
            (
              c',
              ((resp, DtpMsg.dtp_send_retry) ∷ rest),
              rw (b, e) refl,
              Answered.retry buf fin id resp a,
            )
      ]
  recv_msg_loop-Answered fits (DtpMsg.dtp_recv id buflen resp ∷ msgs) c =
      let r = q.stream_recv c id 0 in
      let (c', rest, e, a) = recv_msg_loop-Answered fits msgs r.1 in
      (
        c',
        ((resp, DtpMsg.dtp_recv_ret (bytes_read r.0)) ∷ rest),
        rw e refl,
        Answered.received id buflen resp (bytes_read r.0) (empty_read fits c id r.0 refl) a,
      )
  recv_msg_loop-Answered fits (DtpMsg.dtp_close app code reason resp ∷ msgs) c =
      let r = q.close c app code reason in
      let (c', rest, e, a) = recv_msg_loop-Answered fits msgs r.1 in
      (
        c',
        ((resp, DtpMsg.dtp_close_ret r.0) ∷ rest),
        rw e refl,
        Answered.closed app code reason resp r.0 a,
      )
  recv_msg_loop-Answered fits (DtpMsg.dtp_send_ret r ∷ msgs) c =
      let (c', rest, e, a) = recv_msg_loop-Answered fits msgs c in
      (c', rest, rw e refl, Answered.no_request (DtpMsg.dtp_send_ret r) refl a)
  recv_msg_loop-Answered fits (DtpMsg.dtp_send_retry ∷ msgs) c =
      let (c', rest, e, a) = recv_msg_loop-Answered fits msgs c in
      (c', rest, rw e refl, Answered.no_request DtpMsg.dtp_send_retry refl a)
  recv_msg_loop-Answered fits (DtpMsg.dtp_recv_ret r ∷ msgs) c =
      let (c', rest, e, a) = recv_msg_loop-Answered fits msgs c in
      (c', rest, rw e refl, Answered.no_request (DtpMsg.dtp_recv_ret r) refl a)
  recv_msg_loop-Answered fits (DtpMsg.dtp_close_ret r ∷ msgs) c =
      let (c', rest, e, a) = recv_msg_loop-Answered fits msgs c in
      (c', rest, rw e refl, Answered.no_request (DtpMsg.dtp_close_ret r) refl a)

  sent_result-passed_on : (r : Result ℕ) → sent_result (DtpMsg.dtp_send_ret r) ≡ passed_on r
  unfolding sent_result
  sent_result-passed_on (success k) = refl
  sent_result-passed_on (failure e) = refl

  recv_msg_loop_total :
      (msgs : List DtpMsg) (c : Conn)
      → (c' : Conn) × (answers : List Answer) × (recv_msg_loop q true c msgs ≡ ok (c', answers))
  unfolding recv_msg_loop
  recv_msg_loop_total [] c = (c, [], refl)
  recv_msg_loop_total (msg ∷ msgs) c =
      let (c', rest, e) = recv_msg_loop_total msgs (handle_msg q c msg).0 in
      (c', (handle_msg q c msg).1 ++ rest, rw e refl)

  -- The channel of a running loop, in front of other messages.
  abbrev answers_of : Run (Conn × List Answer) → Option (List Answer)
  answers_of (ok r) = some r.1
  answers_of err = none
  answers_of panicked = none

  abbrev pub channel_of : Conn → List DtpMsg → DtpMsg → Option (List Answer)
  channel_of c msgs msg = answers_of (recv_msg_loop q true c (msg ∷ msgs))

  channel_of_lem :
      (c : Conn) (msgs : List DtpMsg) (msg : DtpMsg)
      → (rest : List Answer) × (channel_of c msgs msg ≡ some ((handle_msg q c msg).1 ++ rest))
  unfolding recv_msg_loop
  channel_of_lem c msgs msg =
      let (c', rest, e) = recv_msg_loop_total msgs (handle_msg q c msg).0 in
      let whole : recv_msg_loop q true c (msg ∷ msgs) ≡ ok (c', (handle_msg q c msg).1 ++ rest) =
        rw e refl in
      (rest, ap answers_of whole)

  first_answer :
      (channel : DtpMsg → Option (List Answer)) (buf : List ℕ) (fin : Bool) (id resp : ℕ)
      (a : DtpMsg) (rest : List Answer)
      → channel (DtpMsg.dtp_send buf fin id resp) ≡ some ((resp, a) ∷ rest)
      → send channel buf fin id resp ≡ sent_result a
  unfolding send get
  first_answer channel buf fin id resp a rest e = rw (send, e, nat_beq_self resp) refl

  -- When the poll can be woken, a `send` that is the first in the channel gets what `stream_send` says
  -- on an established connection, and an error on any other, whatever stands behind it.
  pub send_answered :
      (c : Conn) (buf : List ℕ) (fin : Bool) (id resp : ℕ) (msgs : List DtpMsg)
      → send (channel_of c msgs) buf fin id resp
        ≡ (if q.is_established c then passed_on (q.stream_send c id buf fin).0 else err)
  unfolding handle_msg sent_result
  send_answered c buf fin id resp msgs =
      let (rest, e) = channel_of_lem c msgs (DtpMsg.dtp_send buf fin id resp) in
      elim (Bool-cases (q.is_established c)) [
        | inl b ↦
            first_answer (channel_of c msgs) buf fin id resp
              (DtpMsg.dtp_send_ret (q.stream_send c id buf fin).0) rest
              (e ∙ rw (handle_msg, b) refl)
            ∙ rw b (sent_result-passed_on (q.stream_send c id buf fin).0)
        | inr b ↦
            first_answer (channel_of c msgs) buf fin id resp DtpMsg.dtp_send_retry rest
              (e ∙ rw (handle_msg, b) refl)
            ∙ rw b refl
      ]
