-- ===== src/WebSocket/Receive/Ends.antt =====
-- The end of ReceiveTextMessage: the buffer that it leaves, and the length of a message.
use pvr_dispatcharrai.Prelude.{
  ℕ, zero, suc, ◌+◌, ◌≤◌, ◌<◌, ◌≡◌, refl, sym, subst, Bool, true, false, ◌==◌, ◌||◌, if_both,
  if◌then◌else◌, [], ◌++◌, length, length-append, arith,
}
use pvr_dispatcharrai.Prelude.Text.{Text}
use pvr_dispatcharrai.WebSocket.{Socket, failed, Read, got, stopped}
use pvr_dispatcharrai.WebSocket.Buffer.{stream}
use pvr_dispatcharrai.WebSocket.Queue.{IsValid}
use pvr_dispatcharrai.WebSocket.Send.{random_bytes, send_all, send_pong, send_close}
use pvr_dispatcharrai.WebSocket.Receive.Frames.{Frame, max_frame_payload, read_frame}
use pvr_dispatcharrai.WebSocket.Receive.Frames.Bounds.{After, FrameTakes, read_frame-Takes}
use pvr_dispatcharrai.WebSocket.Receive.{
  ReceiveOutcome, message, ended, out_of_fuel, Loop, after_pong, handle, after_frame, receive_loop,
  receive_text_message,
}

-- The loop has an end, the buffer is valid there, and a message is within the cap.
abbrev pub EndsWell : ReceiveOutcome × Socket → Type 0
EndsWell (message m, t) = IsValid t × (length m ≤ max_frame_payload)
EndsWell (ended e, t) = IsValid t
EndsWell (out_of_fuel, t) = ⊥

-- The loop ends well from here.
abbrev GoesWell : Loop → ℕ → Type 0
GoesWell again n =
    (joined : Text) (t : Socket)
    → IsValid t
    → length (stream t) < n
    → length joined ≤ max_frame_payload
    → EndsWell (again joined t)

-- SendPong and SendClose leave the receive side as it was.
send_pong-stream :
    (payload : Text) (s : Socket)
    → (stream (send_pong payload s).1 ≡ stream s) × (IsValid s → IsValid (send_pong payload s).1)
unfolding send_pong random_bytes send_all stream
send_pong-stream payload s = (refl, λ h. h)

send_close-IsValid : (s : Socket) → IsValid s → IsValid (send_close s).1
unfolding send_close random_bytes send_all
send_close-IsValid s h = h

after_pong-EndsWell :
    (r : Bool × Socket) (assembled : Text) (again : Loop) (n : ℕ)
    → GoesWell again n
    → IsValid r.1
    → length (stream r.1) < n
    → length assembled ≤ max_frame_payload
    → EndsWell (after_pong r assembled again)
unfolding after_pong
after_pong-EndsWell (true, t) assembled again n g v h k = g assembled t v h k
after_pong-EndsWell (false, t) assembled again n g v h k = v

handle-EndsWell :
    (f : Frame) (assembled : Text) (again : Loop) (t : Socket) (n : ℕ)
    → GoesWell again n
    → IsValid t
    → length (stream t) < n
    → length assembled + length f.payload ≤ max_frame_payload
    → EndsWell (handle f assembled again t)
unfolding handle
handle-EndsWell f assembled again t n g v h k =
    let joined = assembled ++ f.payload in
    let pong = send_pong-stream f.payload t in
    if_both EndsWell (f.opcode == 9) {x = after_pong (send_pong f.payload t) assembled again}
      (after_pong-EndsWell (send_pong f.payload t) assembled again n g (pong.1 v)
        (subst (λ k. length k < n) (sym pong.0) h) (omega arith))
      (if_both EndsWell (f.opcode == 8) {x = (ended failed, (send_close t).1)}
        (send_close-IsValid t v)
        (if_both EndsWell ((f.opcode == 1) || (f.opcode == 0))
          {x = if f.fin then (message joined, t) else again joined t} {y = again assembled t}
          (if_both EndsWell f.fin {x = (message joined, t)} {y = again joined t}
            (v, omega (arith, length-append assembled f.payload))
            (g joined t v h (omega (arith, length-append assembled f.payload))))
          (g assembled t v h (omega arith))))

after_frame-EndsWell :
    (s : Socket) (assembled : Text) (r : Read Frame × Socket) (again : Loop) (n : ℕ)
    → After (FrameTakes 2 (length assembled) s) r
    → GoesWell again n
    → length (stream s) < suc n
    → EndsWell (after_frame r assembled again)
unfolding after_frame
after_frame-EndsWell s assembled (got f, t) again n h g k =
    handle-EndsWell f assembled again t n g h.0.0 (omega (arith, h.0.1)) h.1
after_frame-EndsWell s assembled (stopped e, t) again n h g k = h

receive_loop-EndsWell :
    (fuel : ℕ) (assembled : Text) (s : Socket)
    → IsValid s
    → length (stream s) < fuel
    → length assembled ≤ max_frame_payload
    → EndsWell (receive_loop fuel assembled s)
unfolding receive_loop
receive_loop-EndsWell zero assembled s v h k = omega arith
receive_loop-EndsWell (suc fuel) assembled s v h k =
    after_frame-EndsWell s assembled (read_frame (length assembled) s)
      (λ joined t. receive_loop fuel joined t) fuel (read_frame-Takes (length assembled) s v)
      (λ joined t w l m. receive_loop-EndsWell fuel joined t w l m) h

-- ReceiveTextMessage, from a valid buffer and whatever the peer sends, comes to an end: one
-- round more than there are bytes to come is enough. The buffer is valid then, for the next call. A
-- message it gives, of however many fragments, has at most 10 * 1024 * 1024 bytes.
pub receive_text_message-EndsWell : (s : Socket) → IsValid s → EndsWell (receive_text_message s)
unfolding receive_text_message max_frame_payload
receive_text_message-EndsWell s v =
    receive_loop-EndsWell (suc (length (stream s))) [] s v (omega arith) (omega arith)
