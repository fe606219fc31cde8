-- ===== src/WebSocket/Base64.antt =====
-- Base64Encode.
pub mod RoundTrip
use pvr_dispatcharrai.Prelude.{ℕ, zero, suc, ◌+◌, ◌*◌, ◌/◌, ◌%◌, ◌^◌, List, [], ◌∷◌, get_or}
use pvr_dispatcharrai.Prelude.Text.{Text, codes}

abbrev pub table : Text
table = codes "ABCDEFGHIJKLMNOPQRSTUVWXYZabcdefghijklmnopqrstuvwxyz0123456789+/"

-- `table[i]`.
unfoldable pub letter : ℕ → ℕ
letter i = get_or table i 0

-- `table[n & 0x3F]`.
abbrev pub sextet : ℕ → ℕ
sextet n = letter (n % 64)

-- Bytes shifted beside one another are or-ed by adding them.
unfoldable pub base64_encode : Text → Text
unfolding letter
base64_encode [] = []
base64_encode (a ∷ []) =
    let n = a * 2 ^ 16 in sextet (n / 2 ^ 18) ∷ sextet (n / 2 ^ 12) ∷ b'=' ∷ b'=' ∷ []
base64_encode (a ∷ b ∷ []) =
    let n = a * 2 ^ 16 + b * 2 ^ 8 in
    sextet (n / 2 ^ 18) ∷ sextet (n / 2 ^ 12) ∷ sextet (n / 2 ^ 6) ∷ b'=' ∷ []
base64_encode (a ∷ b ∷ c ∷ rest) =
    let n = a * 2 ^ 16 + b * 2 ^ 8 + c in
    sextet (n / 2 ^ 18) ∷ sextet (n / 2 ^ 12) ∷ sextet (n / 2 ^ 6) ∷ sextet n ∷ base64_encode rest
