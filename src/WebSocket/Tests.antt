-- ===== src/WebSocket/Tests.antt =====
-- A connection that gives its bytes in small chunks, and the theorems of this component at it.
use pvr_dispatcharrai.Prelude.{◌+◌, ◌≡◌, refl, true, false, List, [], ◌∷◌, ◌++◌, arith}
use pvr_dispatcharrai.Prelude.Text.{Text, codes}
use pvr_dispatcharrai.WebSocket.{
  RecvEvent, received, readable, accepted, send_again, send_expired, Socket, timed_out,
}
use pvr_dispatcharrai.WebSocket.Buffer.{read_exact, pending, stream}
use pvr_dispatcharrai.WebSocket.Queue.{Reads, read_exact-Reads}
use pvr_dispatcharrai.WebSocket.Queue.Enough.{Answers}
use pvr_dispatcharrai.WebSocket.Base64.{base64_encode}
use pvr_dispatcharrai.WebSocket.Base64.RoundTrip.{base64_decode, base64_decode-encode}
use pvr_dispatcharrai.WebSocket.Send.{pong_frame, send_all}
use pvr_dispatcharrai.WebSocket.Send.Written.{Written, send_all-Written}
use pvr_dispatcharrai.WebSocket.Receive.{ended, receive_text_message}
use pvr_dispatcharrai.WebSocket.Receive.Frames.{read_frame}
use pvr_dispatcharrai.WebSocket.Receive.Frames.Accept.{encode_frame}
use pvr_dispatcharrai.WebSocket.Receive.Frames.Pong.{pong, read_frame-pong_frame}
use pvr_dispatcharrai.WebSocket.Receive.Ends.{EndsWell, receive_text_message-EndsWell}
use pvr_dispatcharrai.WebSocket.Receive.Accept.{
  encode_message, Delivers, receive_text_message-encode,
}
use pvr_dispatcharrai.WebSocket.Receive.Lost.{paused, drained, receive_text_message-paused}
use pvr_dispatcharrai.WebSocket.Connect.{Target, dialled, connect}
use pvr_dispatcharrai.WebSocket.Connect.Accepts.{Opened, connect-Opened}

abbrev pub socket_of : List RecvEvent → Socket
socket_of events = record {
  connected = true;
  recv_buffer = [];
  recv_pos = 0;
  incoming = events;
  outgoing = accepted 4096 ∷ [];
  sent = [];
  random = λ i. i + 1;
  drawn = 0;
}

-- "ab" and "c" in two fragments, cut inside the first, and the start of a third frame.
abbrev two_fragments : Socket
two_fragments =
    socket_of
      (received (1 ∷ 2 ∷ b'a' ∷ []) ∷ readable ∷ received (b'b' ∷ 128 ∷ 1 ∷ b'c' ∷ 129 ∷ []) ∷ [])

receive_text_message-encode_example :
    Delivers (codes "abc") (129 ∷ []) (receive_text_message two_fragments)
unfolding encode_message stream encode_frame
receive_text_message-encode_example =
    receive_text_message-encode (codes "ab") (codes "c" ∷ []) (129 ∷ []) two_fragments (omega arith)
      (omega arith, tt, refl)

receive_text_message-EndsWell_example : EndsWell (receive_text_message two_fragments)
receive_text_message-EndsWell_example = receive_text_message-EndsWell two_fragments (omega arith)

read_exact-Reads_example : Reads 4 two_fragments (read_exact 4 two_fragments)
read_exact-Reads_example = read_exact-Reads 4 two_fragments (omega arith)

receive_text_message-paused_example :
    (receive_text_message (paused 129 2 (received (codes "ab") ∷ []) (socket_of []))
      ≡ (ended timed_out, drained (received (codes "ab") ∷ []) (socket_of [])))
    × (stream (drained (received (codes "ab") ∷ []) (socket_of []))
        ≡ pending (received (codes "ab") ∷ []))
receive_text_message-paused_example =
    receive_text_message-paused 129 2 (received (codes "ab") ∷ []) (socket_of []) (omega arith)
      (omega arith)

base64_decode-encode_example : base64_decode (base64_encode (codes "light w")) ≡ codes "light w"
base64_decode-encode_example = base64_decode-encode (codes "light w") (
  omega arith,
  (omega arith, (omega arith, (omega arith, (omega arith, (omega arith, (omega arith, tt)))))),
)

-- The text of RFC 4648.
encodes_fooba : base64_encode (codes "fooba") ≡ codes "Zm9vYmE="
unfolding base64_encode
encodes_fooba = refl

abbrev slow_socket : Socket
slow_socket = record (socket_of []) { outgoing = accepted 2 ∷ send_again ∷ send_expired ∷ [] }

send_all-Written_example :
    (out : Text) × ((send_all (codes "abc") slow_socket).1.sent ≡ [] ++ out)
    × Written (codes "abc") (send_all (codes "abc") slow_socket).0 out
send_all-Written_example = send_all-Written (codes "abc") slow_socket

-- A part is written.
writes_two : (send_all (codes "abc") slow_socket).1.sent ≡ codes "ab"
unfolding send_all
writes_two = refl

abbrev pong_socket : Socket
pong_socket = socket_of (received (pong_frame (1 ∷ 2 ∷ 3 ∷ 4 ∷ []) (codes "hello")) ∷ [])

read_frame-pong_frame_example : Answers (pong (codes "hello")) [] (read_frame 0 pong_socket)
unfolding pong_frame stream
read_frame-pong_frame_example =
    read_frame-pong_frame (1 ∷ 2 ∷ 3 ∷ 4 ∷ []) (codes "hello") [] pong_socket refl
      (omega arith, (omega arith, (omega arith, (omega arith, (omega arith, tt))))) (omega arith)
      (omega arith, tt, refl)

abbrev server : Target
server = record {
  host = codes "h";
  port = 9191;
  use_tls = false;
  path_and_query = codes "/ws/";
  verify_ssl = true;
  connect_timeout_seconds = 5;
}

abbrev accepting : List RecvEvent
accepting =
    received (
      codes "HTTP/1.1 101 Ok"
      ++ (13 ∷ 10 ∷ [])
      ++ codes "Upgrade: WebSocket"
      ++ (13 ∷ 10 ∷ 13 ∷ []))
    ∷ received (10 ∷ 129 ∷ [])
    ∷ []

connect-Opened_example :
    Opened
      (pending accepting)
      (connect (dialled accepting (accepted 4096 ∷ [])) server (socket_of []))
connect-Opened_example = connect-Opened accepting (accepted 4096 ∷ []) server (socket_of [])

-- The connection is open, and the byte behind the header is kept.
opens : stream (connect (dialled accepting (accepted 4096 ∷ [])) server (socket_of [])).1 ≡ 129 ∷ []
unfolding connect stream pending
opens = refl
