-- ===== src/WebSocket.antt =====
-- WebSocketClient of src/WebSocketClient.cpp: the connection with its receive buffer, and what the
-- network does, which is given as the outcomes of `curl_easy_recv` and `curl_easy_send` in turn.
pub mod Base64
pub mod Buffer
pub mod Send
pub mod Queue
pub mod Receive
pub mod Connect
mod Tests
use pvr_dispatcharrai.Prelude.{
  ℕ, zero, suc, ◌+◌, ◌-◌, ◌*◌, ◌/◌, ◌%◌, Bool, true, false, List, [], ◌∷◌, ◌++◌, drop, take, length,
}
use pvr_dispatcharrai.Prelude.Text.{Text}

-- One round of FillBuffer: `curl_easy_recv` gives bytes, none of them if the peer has closed; or
-- it says CURLE_AGAIN, and then the socket turns readable, or the time is up, or select() fails;
-- or it fails.
pub data RecvEvent : Type 0 where
  received : Text → RecvEvent
  readable expired select_failed recv_failed : RecvEvent

-- One round of SendAll: `curl_easy_send` takes some bytes; or it says CURLE_AGAIN, and then the
-- loop goes on, or the deadline has passed, or select() fails; or it fails.
pub data SendEvent : Type 0 where
  accepted : ℕ → SendEvent
  send_again send_expired send_select_failed send_failed : SendEvent

-- The members of WebSocketClient, with the rounds to come of either direction, the bytes handed to
-- the OS, and the generator behind RandomBytes. A script that is at its end is a silent peer.
pub record Socket : Type 0 where
  pub connected : Bool
  pub recv_buffer : Text
  pub recv_pos : ℕ
  pub incoming : List RecvEvent
  pub outgoing : List SendEvent
  pub sent : Text
  pub random : ℕ → ℕ
  pub drawn : ℕ

-- The buffered bytes that are not consumed.
abbrev pub view : Socket → Text
view s = drop s.recv_pos s.recv_buffer

-- Why a read ends without bytes: the return values 0 and -1.
pub data Stop : Type 0 where
  timed_out failed : Stop

-- What a read comes to.
pub data Read {ℓ} (A : Type ℓ) : Type ℓ where
  got : A → Read A
  stopped : Stop → Read A

-- A read acts on the connection.
abbrev pub Reader : Type 0 → Type 0
Reader A = Socket → Read A × Socket

abbrev pub on_got : {A B : Type 0} → (A → Reader B) → Read A × Socket → Read B × Socket
on_got f (got a, s) = f a s
on_got f (stopped e, s) = (stopped e, s)

infixl 5 ◌>>=◌
abbrev pub ◌>>=◌ : {A B : Type 0} → Reader A → (A → Reader B) → Reader B
◌>>=◌ m f s = on_got f (m s)

abbrev pub ret : {A : Type 0} → A → Reader A
ret a s = (got a, s)
