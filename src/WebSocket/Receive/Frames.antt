-- ===== src/WebSocket/Receive/Frames.antt =====
-- One frame of ReceiveTextMessage: the header, the length in its three forms, the cap, the mask
-- and the payload.
pub mod Bounds
pub mod Accept
pub mod Pong
use pvr_dispatcharrai.Prelude.{
  ℕ, zero, suc, ◌+◌, ◌*◌, ◌/◌, ◌%◌, Bool, true, false, ◌==◌, ◌||◌, ltb, leb, if◌then◌else◌, List,
  [], ◌∷◌, get_or,
}
use pvr_dispatcharrai.Prelude.Text.{Text}
use pvr_dispatcharrai.WebSocket.{
  Socket, Stop, failed, Read, got, stopped, Reader, ◌>>=◌, on_got, ret,
}
use pvr_dispatcharrai.WebSocket.Buffer.{read_exact}
use pvr_dispatcharrai.WebSocket.Send.{masked}

-- `kMaxFramePayload`.
unfoldable pub max_frame_payload : ℕ
max_frame_payload = 10 * 1024 * 1024

pub record Frame : Type 0 where
  pub fin : Bool
  pub opcode : ℕ
  pub payload : Text

-- `len = (len << 8) | ext[i]` over the bytes.
unfoldable pub big_endian : ℕ → Text → ℕ
big_endian acc [] = acc
big_endian acc (b ∷ bs) = big_endian (acc * 256 + b) bs

unfoldable pub read_length : ℕ → Reader ℕ
unfolding big_endian
read_length short s =
    if short == 126
    then on_got (λ ext. ret (big_endian 0 ext)) (read_exact 2 s)
    else if short == 127
    then on_got (λ ext. ret (big_endian 0 ext)) (read_exact 8 s)
    else ret short s

unfoldable pub is_too_long : ℕ → ℕ → Bool
unfolding max_frame_payload
is_too_long assembled len = ltb max_frame_payload len || ltb max_frame_payload (assembled + len)

unfoldable pub check_length : ℕ → ℕ → Reader (Unit {0})
unfolding is_too_long
check_length assembled len s =
    if is_too_long assembled len then (stopped failed, s) else (got tt, s)

unfoldable pub read_key : Bool → Reader Text
read_key true s = read_exact 4 s
read_key false s = (got (0 ∷ 0 ∷ 0 ∷ 0 ∷ []), s)

unfoldable pub unmask : Bool → Text → Text → Text
unfolding masked
unmask true key payload = masked key payload
unmask false key payload = payload

unfoldable pub read_payload : Bool → Text → ℕ → Reader Text
unfolding unmask
read_payload is_masked key len s =
    if ltb 0 len
    then on_got (λ payload. ret (unmask is_masked key payload)) (read_exact len s)
    else (got [], s)

-- What follows the two bytes of the header.
unfoldable pub read_body : ℕ → ℕ → ℕ → Reader Frame
unfolding read_length check_length read_key read_payload
read_body assembled h0 h1 = do
  len ← read_length (h1 % 128)
  u ← check_length assembled len
  key ← read_key (leb 128 h1)
  payload ← read_payload (leb 128 h1) key len
  ret (record { fin = leb 128 h0; opcode = h0 % 16; payload = payload })

unfoldable pub read_frame : ℕ → Reader Frame
unfolding read_exact read_body
read_frame assembled = do
  header ← read_exact 2
  read_body assembled (get_or header 0 0) (get_or header 1 0)
