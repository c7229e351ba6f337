-- ===== src/Message.antt =====
-- src/message.rs, and `send` of src/lib.rs, which talks to it. A responder is a number; an answer is
-- the responder and the message that is sent to it. Printing is left out.
pub mod Answers
use nanwei_api_rust.Prelude.{ℕ, Bool, List, [], ◌∷◌, ◌++◌, Option, length, if◌then◌else◌, nat_eq}
use nanwei_api_rust.Prelude.Run.{Run, ok, err, panicked, ◌>>=◌, ◌>>◌, expect, or_panic}
use nanwei_api_rust.Prelude.Map.{get}
use nanwei_api_rust.Quiche.{Quiche, Result, success, failure}

pub data DtpMsg : Type 0 where
  -- The bytes, whether they end the stream, the stream, and the responder.
  dtp_send : List ℕ → Bool → ℕ → ℕ → DtpMsg
  dtp_send_ret : Result ℕ → DtpMsg
  dtp_send_retry : DtpMsg
  -- The stream, the length of the buffer, and the responder.
  dtp_recv : ℕ → ℕ → ℕ → DtpMsg
  dtp_recv_ret : Result (ℕ × Bool) → DtpMsg
  -- What `close` takes, and the responder.
  dtp_close : Bool → ℕ → List ℕ → ℕ → DtpMsg
  dtp_close_ret : Result (Unit {0}) → DtpMsg

abbrev pub Answer : Type 0
Answer = ℕ × DtpMsg

-- The result of `stream_recv` without the bytes, which stay in the buffer.
abbrev pub bytes_read : Result (List ℕ × Bool) → Result (ℕ × Bool)
bytes_read (success r) = success (length r.0, r.1)
bytes_read (failure e) = failure e

module _ {Conn : Type 0} (q : Quiche Conn) where
  -- The `match` of `recv_msg_loop`. The buffer of a `DtpRecv` is a vector with a capacity and no
  -- elements, so its slice has length 0, whatever `buflen` is.
  unfoldable pub handle_msg : Conn → DtpMsg → Conn × List Answer
  handle_msg c (DtpMsg.dtp_send buf fin stream_id resp) =
      let r = q.stream_send c stream_id buf fin in
      if q.is_established c
      then (r.1, (resp, DtpMsg.dtp_send_ret r.0) ∷ [])
      else (c, (resp, DtpMsg.dtp_send_retry) ∷ [])
  handle_msg c (DtpMsg.dtp_recv stream_id buflen resp) =
      let r = q.stream_recv c stream_id 0 in
      (r.1, (resp, DtpMsg.dtp_recv_ret (bytes_read r.0)) ∷ [])
  handle_msg c (DtpMsg.dtp_close app code reason resp) =
      let r = q.close c app code reason in (r.1, (resp, DtpMsg.dtp_close_ret r.0) ∷ [])
  handle_msg c _ = (c, [])

  -- The messages that come before the channel is closed; `wake` is whether waking the poll succeeds.
  unfoldable pub recv_msg_loop : (wake : Bool) → Conn → List DtpMsg → Run (Conn × List Answer)
  recv_msg_loop wake c [] = ok (c, [])
  recv_msg_loop wake c (msg ∷ msgs) = do
    expect wake
    r ← recv_msg_loop wake (handle_msg c msg).0 msgs
    ok (r.0, (handle_msg c msg).1 ++ r.1)

-- The end of `send`, for the answer that it gets.
unfoldable pub sent_result : DtpMsg → Run ℕ
sent_result (DtpMsg.dtp_send_ret (success size)) = ok size
sent_result _ = err

-- `send`, for what happens to a message that is put into the channel: it is refused, since nobody
-- listens any more, or some answers come. A responder that is dropped gives no answer.
unfoldable pub send : (DtpMsg → Option (List Answer)) → List ℕ → Bool → ℕ → ℕ → Run ℕ
send channel buf fin stream_id resp = do
  answers ← or_panic (channel (DtpMsg.dtp_send buf fin stream_id resp))
  msg ← or_panic (get resp answers)
  sent_result msg
