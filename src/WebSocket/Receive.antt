-- ===== src/WebSocket/Receive.antt =====
-- ReceiveTextMessage: reading frames, answering pings, and joining the fragments of a message.
pub mod Frames
pub mod Ends
pub mod Lost
pub mod Accept
use pvr_dispatcharrai.Prelude.{
  ℕ, zero, suc, ◌+◌, ◌*◌, ◌/◌, ◌%◌, Bool, true, false, ◌==◌, ◌||◌, ltb, leb, if◌then◌else◌, List,
  [], ◌∷◌, ◌++◌, length, get_or,
}
use pvr_dispatcharrai.Prelude.Text.{Text}
use pvr_dispatcharrai.WebSocket.{
  RecvEvent, received, readable, expired, select_failed, recv_failed, Socket, view, Stop, timed_out,
  failed, Read, got, stopped, Reader,
}
use pvr_dispatcharrai.WebSocket.Buffer.{stream}
use pvr_dispatcharrai.WebSocket.Send.{send_pong, send_close}
use pvr_dispatcharrai.WebSocket.Receive.Frames.{Frame, read_frame}

-- What ReceiveTextMessage comes to: a message, or the return values 0 and -1.
pub data ReceiveOutcome : Type 0 where
  message : Text → ReceiveOutcome
  ended : Stop → ReceiveOutcome
  out_of_fuel : ReceiveOutcome

-- How the loop goes on after a frame: the next round is `again`, with the bytes assembled.
-- `assembling` only chooses between two `continue`.
abbrev pub Loop : Type 0
Loop = Text → Socket → ReceiveOutcome × Socket

unfoldable pub after_pong : Bool × Socket → Text → Loop → ReceiveOutcome × Socket
after_pong (true, s) assembled again = again assembled s
after_pong (false, s) assembled again = (ended failed, s)

unfoldable pub handle : Frame → Text → Loop → Socket → ReceiveOutcome × Socket
unfolding after_pong
handle frame assembled again s =
    let joined = assembled ++ frame.payload in
    if frame.opcode == 9
    then after_pong (send_pong frame.payload s) assembled again
    else if frame.opcode == 8
    then (ended failed, (send_close s).1)
    else if (frame.opcode == 1) || (frame.opcode == 0)
    then (if frame.fin then (message joined, s) else again joined s)
    else again assembled s

unfoldable pub after_frame : Read Frame × Socket → Text → Loop → ReceiveOutcome × Socket
unfolding handle
after_frame (got frame, s) assembled again = handle frame assembled again s
after_frame (stopped e, s) assembled again = (ended e, s)

unfoldable pub receive_loop : ℕ → Loop
unfolding after_frame
receive_loop zero assembled s = (out_of_fuel, s)
receive_loop (suc fuel) assembled s =
    after_frame (read_frame (length assembled) s) assembled (λ joined t. receive_loop fuel joined t)

-- ReceiveTextMessage. A frame takes two bytes at least of those to come.
unfoldable pub receive_text_message : Socket → ReceiveOutcome × Socket
unfolding receive_loop
receive_text_message s = receive_loop (suc (length (stream s))) [] s
