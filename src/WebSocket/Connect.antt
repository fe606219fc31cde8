-- ===== src/WebSocket/Connect.antt =====
-- Connect and Close: the handshake request, and the response up to its blank line.
pub mod Accepts
pub mod Rounds
use pvr_dispatcharrai.Prelude.{
  ℕ, zero, suc, ◌+◌, Bool, true, false, ◌&&◌, ◌||◌, if◌then◌else◌, pos, Option, none, some, List,
  [], ◌∷◌, ◌++◌, map, take, length,
}
use pvr_dispatcharrai.Prelude.Text.{Text, codes, to_lower, to_string, contains, find, starts_with}
use pvr_dispatcharrai.WebSocket.{RecvEvent, SendEvent, Socket, view, Read, got, stopped}
use pvr_dispatcharrai.WebSocket.Buffer.{fill_buffer}
use pvr_dispatcharrai.WebSocket.Base64.{base64_encode}
use pvr_dispatcharrai.WebSocket.Send.{random_bytes, send_all}

-- Close.
unfoldable pub close : Socket → Socket
close s = record s { connected = false; recv_buffer = []; recv_pos = 0 }

-- The options of `curl_easy_setopt` for the connection.
pub record CurlOptions : Type 0 where
  pub url : Text
  pub connect_only : Bool
  pub verify_peer : Bool
  pub verify_host : ℕ
  pub time_limit : ℕ
  pub connect_time_limit : ℕ

pub record Target : Type 0 where
  pub host : Text
  pub port : ℕ
  pub use_tls : Bool
  pub path_and_query : Text
  pub verify_ssl : Bool
  pub connect_timeout_seconds : ℕ

unfoldable pub curl_options : Target → CurlOptions
unfolding to_string
curl_options d =
    let scheme = if d.use_tls then codes "https://" else codes "http://" in
    record {
      url = scheme ++ d.host ++ codes ":" ++ to_string (pos d.port) ++ codes "/";
      connect_only = true;
      verify_peer = d.verify_ssl;
      verify_host = if d.verify_ssl then 2 else 0;
      time_limit = d.connect_timeout_seconds;
      connect_time_limit = d.connect_timeout_seconds;
    }

-- What `curl_easy_init` and `curl_easy_perform` come to: no handle, no connection, or a connection
-- with the rounds to come in either direction.
pub data Dial : Type 0 where
  no_handle no_connection : Dial
  dialled : List RecvEvent → List SendEvent → Dial

abbrev pub crlf : Text
crlf = 13 ∷ 10 ∷ []

unfoldable pub handshake_request : Target → Text → Text
unfolding to_string
handshake_request d key =
    codes "GET "
    ++ d.path_and_query
    ++ codes " HTTP/1.1"
    ++ crlf
    ++ codes "Host: "
    ++ d.host
    ++ codes ":"
    ++ to_string (pos d.port)
    ++ crlf
    ++ codes "Upgrade: websocket"
    ++ crlf
    ++ codes "Connection: Upgrade"
    ++ crlf
    ++ codes "Sec-WebSocket-Key: "
    ++ key
    ++ crlf
    ++ codes "Sec-WebSocket-Version: 13"
    ++ crlf
    ++ crlf

-- The blank line that ends the headers.
abbrev pub blank_line : Text
blank_line = 13 ∷ 10 ∷ 13 ∷ 10 ∷ []

-- The loop up to the blank line: the header, or the connection as it failed. A round of it takes
-- one round to come at least, so that one more than these are enough.
unfoldable pub after_header_fill :
    Read (Unit {0}) × Socket → (Socket → Option Text × Socket) → Option Text × Socket
unfolding close
after_header_fill (got u, s) again = again s
after_header_fill (stopped e, s) again = (none, close s)

unfoldable pub found_header : Option ℕ → Socket → Option Text × Socket → Option Text × Socket
found_header (some terminator) s more =
    (some (take terminator (view s)), record s { recv_pos = s.recv_pos + (terminator + 4) })
found_header none s more = more

unfoldable pub read_header : ℕ → Socket → Option Text × Socket
unfolding close find found_header fill_buffer after_header_fill
read_header zero s = (none, close s)
read_header (suc rounds) s =
    found_header (find (view s) blank_line) s
      (after_header_fill (fill_buffer s) (λ t. read_header rounds t))

-- `got101 && gotUpgrade`.
unfoldable pub is_upgrade : Text → Bool
unfolding find starts_with
is_upgrade header_text =
    let lower = map to_lower header_text in
    let got101 =
      contains lower (codes " 101 ")
      || starts_with lower (codes "http/1.1 101")
      || starts_with lower (codes "http/1.0 101") in
    got101 && contains lower (codes "upgrade: websocket")

unfoldable pub after_header : Option Text × Socket → Bool × Socket
unfolding is_upgrade close
after_header (none, s) = (false, s)
after_header (some header_text, s) = if is_upgrade header_text then (true, s) else (false, close s)

unfoldable pub after_request : Bool × Socket → Bool × Socket
unfolding close read_header after_header
after_request (false, s) = (false, close s)
after_request (true, s) = after_header (read_header (suc (length s.incoming)) s)

-- Connect, after Close, when there is a connection.
unfoldable pub handshake : Target → Socket → Bool × Socket
unfolding random_bytes base64_encode handshake_request send_all after_request
handshake d s =
    let (nonce, t) = random_bytes 16 s in
    after_request (send_all (handshake_request d (base64_encode nonce)) t)

-- Connect.
unfoldable pub connect : Dial → Target → Socket → Bool × Socket
unfolding close handshake
connect no_handle d s = (false, close s)
connect no_connection d s = (false, close s)
connect (dialled recvs sends) d s =
    handshake d (record (close s) { connected = true; incoming = recvs; outgoing = sends })
