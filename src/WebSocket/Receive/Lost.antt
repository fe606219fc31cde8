-- ===== src/WebSocket/Receive/Lost.antt =====
-- ReceiveTextMessage when the peer pauses inside a frame.
use pvr_dispatcharrai.Prelude.{
  ℕ, zero, suc, ◌+◌, ◌%◌, ◌<◌, ◌≡◌, refl, ap, ◌∙◌, get_or, Bool, false, ◌==◌, lt→ltb, not_lt→ltb,
  not_le→leb, List, [], ◌∷◌, arith,
}
use pvr_dispatcharrai.Prelude.Text.{Text}
use pvr_dispatcharrai.WebSocket.{RecvEvent, expired, Socket, timed_out, got, stopped, on_got}
use pvr_dispatcharrai.WebSocket.Buffer.{
  next_chunk, buffered, fill_buffer, after_fill, wait_for, compact, consume, read_exact, pending,
  stream,
}
use pvr_dispatcharrai.WebSocket.Receive.Frames.{
  max_frame_payload, read_length, is_too_long, check_length, read_key, read_payload, read_body,
  read_frame,
}
use pvr_dispatcharrai.WebSocket.Receive.{ended, after_frame, receive_loop, receive_text_message}

-- The connection with a header in its buffer, and no time left for the payload.
abbrev pub paused : ℕ → ℕ → List RecvEvent → Socket → Socket
paused h0 h1 es s = record s { recv_buffer = h0 ∷ h1 ∷ []; recv_pos = 0; incoming = expired ∷ es }

abbrev pub drained : List RecvEvent → Socket → Socket
drained es s = record s { recv_buffer = []; recv_pos = 0; incoming = es }

header_read :
    (h0 h1 : ℕ) (es : List RecvEvent) (s : Socket)
    → read_exact 2 (paused h0 h1 es s) ≡ (got (h0 ∷ h1 ∷ []), drained (expired ∷ es) s)
unfolding read_exact wait_for consume compact
header_read h0 h1 es s = refl

payload_awaited :
    (n : ℕ) (es : List RecvEvent) (s : Socket)
    → 0 < n
    → read_exact n (drained (expired ∷ es) s) ≡ (stopped timed_out, drained es s)
unfolding read_exact wait_for consume after_fill fill_buffer buffered next_chunk
payload_awaited zero es s h = absurd (omega arith)
payload_awaited (suc k) es s h = rw (lt→ltb 0 (suc k) (omega arith)) refl

length_read : (n : ℕ) (s : Socket) → n < 126 → read_length (n % 128) s ≡ (got n, s)
unfolding read_length
length_read n s h = rw (mod_small n h, not_eq n 126 (omega arith), not_eq n 127 (omega arith)) refl
  where
    mod_small : (n : ℕ) → n < 126 → n % 128 ≡ n
    mod_small n h = omega arith

    not_eq : (a b : ℕ) → a < b → (a == b) ≡ false
    not_eq a b h = ground arith

length_checked : (n : ℕ) (s : Socket) → n < 126 → check_length 0 n s ≡ (got tt, s)
unfolding check_length is_too_long max_frame_payload
length_checked n s h =
    rw (not_lt→ltb 10485760 n (omega arith), not_lt→ltb 10485760 (0 + n) (omega arith)) refl

payload_stops :
    (b : Bool) (key : Text) (n : ℕ) (es : List RecvEvent) (s : Socket)
    → 0 < n
    → read_payload b key n (drained (expired ∷ es) s) ≡ (stopped timed_out, drained es s)
unfolding read_payload
payload_stops b key n es s h = rw (lt→ltb 0 n h, payload_awaited n es s h) refl

body_stops :
    (h0 n : ℕ) (es : List RecvEvent) (s : Socket)
    → 0 < n
    → n < 126
    → read_body 0 h0 n (drained (expired ∷ es) s) ≡ (stopped timed_out, drained es s)
unfolding read_body read_key
body_stops h0 n es s pos small =
    let t = drained (expired ∷ es) s in
    rw
      (
        length_read n t small,
        length_checked n t small,
        not_le→leb 128 n (omega arith),
        payload_stops false (0 ∷ 0 ∷ 0 ∷ 0 ∷ []) n es s pos,
      )
      refl

frame_stops :
    (h0 n : ℕ) (es : List RecvEvent) (s : Socket)
    → 0 < n
    → n < 126
    → read_frame 0 (paused h0 n es s) ≡ (stopped timed_out, drained es s)
unfolding read_frame
frame_stops h0 n es s pos small =
    ap (on_got (λ header. read_body 0 (get_or header 0 0) (get_or header 1 0)))
      (header_read h0 n es s)
    ∙ body_stops h0 n es s pos small

-- If the header of a frame without a mask, whose payload has between 1 and 125 bytes, is buffered
-- and the time is up before the payload comes, then ReceiveTextMessage returns 0, and the header
-- is consumed: what the next call reads as a header is the payload.
pub receive_text_message-paused :
    (h0 n : ℕ) (es : List RecvEvent) (s : Socket)
    → 0 < n
    → n < 126
    → (receive_text_message (paused h0 n es s) ≡ (ended timed_out, drained es s))
      × (stream (drained es s) ≡ pending es)
unfolding receive_text_message receive_loop after_frame stream
receive_text_message-paused h0 n es s pos small = (rw (frame_stops h0 n es s pos small) refl, refl)
