-- ===== src/WebSocket/Send.antt =====
-- SendAll, RandomBytes, SendPong and SendClose: what the client writes to the connection.
pub mod Masks
pub mod Written
use pvr_dispatcharrai.Prelude.{
  ℕ, zero, suc, ◌+◌, ◌-◌, ◌*◌, ◌/◌, ◌%◌, Bool, true, false, ◌==◌, ltb, leb, not, if◌then◌else◌,
  List, [], ◌∷◌, ◌++◌, take, drop, length, get_or,
}
use pvr_dispatcharrai.Prelude.Text.{Text}
use pvr_dispatcharrai.WebSocket.{
  SendEvent, accepted, send_again, send_expired, send_select_failed, send_failed, Socket,
}

-- What a write does: whether all was taken, the rounds that are left, and the bytes taken.
pub record Sending : Type 0 where
  pub all_sent : Bool
  pub rounds_left : List SendEvent
  pub taken : Text

abbrev pub before : Text → Sending → Sending
before chunk r = record r { taken = chunk ++ r.taken }

-- SendAll's loop over the rounds to come, with the bytes that are left; `curl_easy_send` takes no
-- more bytes than it is offered.
unfoldable pub send_loop : List SendEvent → Text → Sending
send_loop es [] = record { all_sent = true; rounds_left = es; taken = [] }
send_loop [] (b ∷ bs) = record { all_sent = false; rounds_left = []; taken = [] }
send_loop (accepted n ∷ es) (b ∷ bs) = before (take n (b ∷ bs)) (send_loop es (drop n (b ∷ bs)))
send_loop (send_again ∷ es) (b ∷ bs) = send_loop es (b ∷ bs)
send_loop (send_expired ∷ es) (b ∷ bs) = record { all_sent = false; rounds_left = es; taken = [] }
send_loop (send_select_failed ∷ es) (b ∷ bs) = record {
  all_sent = false;
  rounds_left = es;
  taken = [];
}
send_loop (send_failed ∷ es) (b ∷ bs) = record { all_sent = false; rounds_left = es; taken = [] }

-- SendAll.
unfoldable pub send_all : Text → Socket → Bool × Socket
unfolding send_loop
send_all bytes s =
    let r = send_loop s.outgoing bytes in
    (r.all_sent, record s { outgoing = r.rounds_left; sent = s.sent ++ r.taken })

-- RandomBytes: the next values of the generator, which are below 256.
unfoldable pub draws : (ℕ → ℕ) → ℕ → ℕ → Text
draws random from zero = []
draws random from (suc n) = random from % 256 ∷ draws random (suc from) n

unfoldable pub random_bytes : ℕ → Socket → Text × Socket
unfolding draws
random_bytes n s = (draws s.random s.drawn n, record s { drawn = s.drawn + n })

-- `a ^ b` on the low bits.
unfoldable pub xor_bits : ℕ → ℕ → ℕ → ℕ
xor_bits zero a b = 0
xor_bits (suc w) a b = (if a % 2 == b % 2 then 0 else 1) + 2 * xor_bits w (a / 2) (b / 2)

unfoldable pub xor_byte : ℕ → ℕ → ℕ
unfolding xor_bits
xor_byte = xor_bits 8

-- `payload[i] ^ maskKey[i % 4]` from the index i on.
unfoldable pub mask_from : ℕ → Text → Text → Text
unfolding xor_byte
mask_from i key [] = []
mask_from i key (b ∷ bs) = xor_byte b (get_or key (i % 4) 0) ∷ mask_from (suc i) key bs

unfoldable pub masked : Text → Text → Text
unfolding mask_from
masked = mask_from 0

-- The frame that SendPong builds.
unfoldable pub pong_frame : Text → Text → Text
unfolding masked
pong_frame key payload =
    let len = length payload in
    let size = if leb len 125 then (128 + len) ∷ [] else 254 ∷ len / 256 % 256 ∷ len % 256 ∷ [] in
    138 ∷ size ++ key ++ masked key payload

-- SendPong.
unfoldable pub send_pong : Text → Socket → Bool × Socket
unfolding random_bytes pong_frame send_all
send_pong payload s = let (key, t) = random_bytes 4 s in send_all (pong_frame key payload) t

-- SendClose.
unfoldable pub send_close : Socket → Bool × Socket
unfolding random_bytes send_all
send_close s = let (key, t) = random_bytes 4 s in send_all (136 ∷ 128 ∷ key) t
