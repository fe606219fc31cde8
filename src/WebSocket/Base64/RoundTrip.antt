-- ===== src/WebSocket/Base64/RoundTrip.antt =====
-- Base64Encode against the decoder of RFC 4648.
use pvr_dispatcharrai.Prelude.{
  ℕ, ◌+◌, ◌-◌, ◌*◌, ◌/◌, ◌%◌, ◌<◌, ◌≡◌, ◌≢◌, refl, ap, ◌∙◌, Bool, true, false, ◌==◌, ◌&&◌, not, leb,
  if◌then◌else◌, [], ◌∷◌, arith,
}
use pvr_dispatcharrai.Prelude.Below.{all_below, all_below_lem}
use pvr_dispatcharrai.Prelude.Text.{Text}
use pvr_dispatcharrai.WebSocket.Base64.{letter, sextet, base64_encode}

-- The value of a letter of the alphabet.
letter_value : ℕ → ℕ
letter_value c =
    if leb b'a' c
    then c - 71
    else if leb b'A' c
    then c - 65
    else if leb b'0' c
    then c + 4
    else if c == b'+'
    then 62
    else 63

-- Four letters at a time; a pad ends the text.
unfoldable pub base64_decode : Text → Text
unfolding letter_value
base64_decode (w ∷ x ∷ y ∷ z ∷ rest) =
    let first = (letter_value w * 64 + letter_value x) / 16 in
    let second = (letter_value x * 64 + letter_value y) / 4 % 256 in
    let third = (letter_value y * 64 + letter_value z) % 256 in
    let more = first ∷ second ∷ third ∷ base64_decode rest in
    if y == b'=' then first ∷ [] else if z == b'=' then first ∷ second ∷ [] else more
base64_decode _ = []

abbrev pub AreBytes : Text → Type 0
AreBytes [] = Unit {0}
AreBytes (b ∷ bs) = (b < 256) × AreBytes bs

is_right : ℕ → Bool
unfolding letter_value letter
is_right n = (letter_value (letter n) == n) && not (letter n == b'=')

table_right : all_below 64 is_right ≡ true
unfolding all_below is_right
table_right = refl

right_at : (n : ℕ) → is_right (n % 64) ≡ true
right_at n = all_below_lem 64 is_right (n % 64) table_right (omega arith)

right_parts : (n : ℕ) → is_right n ≡ true → (letter_value (letter n) ≡ n) × (letter n ≢ b'=')
right_parts n h = unfold is_right in ground arith

value-sextet : (n : ℕ) → letter_value (sextet n) ≡ n % 64
value-sextet n = (right_parts (n % 64) (right_at n)).0

sextet_no_pad : (n : ℕ) → (sextet n == b'=') ≡ false
sextet_no_pad n = ground (arith, (right_parts (n % 64) (right_at n)).1)

-- The bytes of a number of 24 bits, as the decoder has them.
high : ℕ → ℕ
high n = (n / 262144 % 64 * 64 + n / 4096 % 64) / 16

mid : ℕ → ℕ
mid n = (n / 4096 % 64 * 64 + n / 64 % 64) / 4 % 256

low : ℕ → ℕ
low n = (n / 64 % 64 * 64 + n % 64) % 256

high_byte : (n a r : ℕ) → n ≡ a * 65536 + r → a < 256 → r < 65536 → high n ≡ a
unfolding high
high_byte n a r e h k = omega arith

mid_byte : (n a b c : ℕ) → n ≡ a * 65536 + b * 256 + c → b < 256 → c < 256 → mid n ≡ b
unfolding mid
mid_byte n a b c e h k = omega arith

low_byte : (n a b c : ℕ) → n ≡ a * 65536 + b * 256 + c → c < 256 → low n ≡ c
unfolding low
low_byte n a b c e h = omega arith

decode-one :
    (n : ℕ)
    → base64_decode (sextet (n / 262144) ∷ sextet (n / 4096) ∷ b'=' ∷ b'=' ∷ []) ≡ high n ∷ []
unfolding base64_decode high
decode-one n = rw (value-sextet (n / 262144), value-sextet (n / 4096)) refl

decode-two :
    (n : ℕ)
    → base64_decode (sextet (n / 262144) ∷ sextet (n / 4096) ∷ sextet (n / 64) ∷ b'=' ∷ [])
      ≡ high n ∷ mid n ∷ []
unfolding base64_decode high mid
decode-two n =
    rw
      (
        value-sextet (n / 262144),
        value-sextet (n / 4096),
        value-sextet (n / 64),
        sextet_no_pad (n / 64),
      )
      refl

decode-three :
    (n : ℕ) (rest : Text)
    → base64_decode (sextet (n / 262144) ∷ sextet (n / 4096) ∷ sextet (n / 64) ∷ sextet n ∷ rest)
      ≡ high n ∷ mid n ∷ low n ∷ base64_decode rest
unfolding base64_decode high mid low
decode-three n rest =
    rw
      (
        value-sextet (n / 262144),
        value-sextet (n / 4096),
        value-sextet (n / 64),
        value-sextet n,
        sextet_no_pad (n / 64),
        sextet_no_pad n,
      )
      refl

cons2 : {a b x y : ℕ} {r s : Text} → a ≡ x → b ≡ y → r ≡ s → (a ∷ b ∷ r) ≡ (x ∷ y ∷ s)
cons2 h k m = cc

-- Decoding what Base64Encode makes of any bytes gives the bytes.
pub base64_decode-encode : (xs : Text) → AreBytes xs → base64_decode (base64_encode xs) ≡ xs
unfolding base64_encode base64_decode
base64_decode-encode [] h = refl
base64_decode-encode (a ∷ []) h =
    let n = a * 65536 in
    decode-one n ∙ ap (λ k. k ∷ []) {x = high n} (high_byte n a 0 (omega arith) h.0 (omega arith))
base64_decode-encode (a ∷ b ∷ []) h =
    let n = a * 65536 + b * 256 in
    decode-two n
    ∙ cons2 {a = high n} {b = mid n} (high_byte n a (b * 256) refl h.0 (omega arith))
        (mid_byte n a b 0 (omega arith) h.1.0 (omega arith)) refl
base64_decode-encode (a ∷ b ∷ c ∷ rest) h =
    let n = a * 65536 + b * 256 + c in
    decode-three n (base64_encode rest)
    ∙ cons2 {a = high n} {b = mid n} (high_byte n a (b * 256 + c) (omega arith) h.0 (omega arith))
        (mid_byte n a b c refl h.1.0 h.1.1.0)
        (ap (λ k. k ∷ base64_decode (base64_encode rest)) {x = low n}
            (low_byte n a b c refl h.1.1.0)
          ∙ ap (λ r. c ∷ r) (base64_decode-encode rest h.1.1.1))
