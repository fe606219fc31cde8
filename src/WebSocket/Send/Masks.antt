-- ===== src/WebSocket/Send/Masks.antt =====
-- Masking a payload twice with one key.
use pvr_dispatcharrai.Prelude.{
  ℕ, zero, suc, ◌+◌, ◌*◌, ◌/◌, ◌%◌, ◌<◌, ◌≡◌, refl, ap, ◌∙◌, ◌==◌, if◌then◌else◌, [], ◌∷◌, length,
  get_or, arith,
}
use pvr_dispatcharrai.Prelude.Text.{Text}
use pvr_dispatcharrai.WebSocket.Base64.RoundTrip.{AreBytes}
use pvr_dispatcharrai.WebSocket.Send.{xor_bits, xor_byte, mask_from, masked}

-- The numbers of `w` bits are those below it.
abbrev limit : ℕ → ℕ
limit zero = 1
limit (suc w) = 2 * limit w

bit : ℕ → ℕ → ℕ
bit a b = if a % 2 == b % 2 then 0 else 1

bit_twice : (a b r : ℕ) → bit (bit a b + 2 * r) b ≡ a % 2
unfolding bit
bit_twice a b r = ground arith

bit_half : (a b r : ℕ) → (bit a b + 2 * r) / 2 ≡ r
unfolding bit
bit_half a b r = ground arith

xor_bits-twice : (w a b : ℕ) → a < limit w → xor_bits w (xor_bits w a b) b ≡ a
unfolding xor_bits bit
xor_bits-twice zero a b h = omega arith
xor_bits-twice (suc w) a b h =
    let r = xor_bits w (a / 2) (b / 2) in
    ap (λ k. k + 2 * xor_bits w ((bit a b + 2 * r) / 2) (b / 2)) {x = bit (bit a b + 2 * r) b}
      (bit_twice a b r)
    ∙ ap (λ k. a % 2 + 2 * k)
        (ap (λ k. xor_bits w k (b / 2)) {x = (bit a b + 2 * r) / 2} (bit_half a b r)
          ∙ xor_bits-twice w (a / 2) (b / 2) (omega (arith, h)))
    ∙ omega arith

mask_from-twice : (i : ℕ) (key bs : Text) → AreBytes bs → mask_from i key (mask_from i key bs) ≡ bs
unfolding mask_from xor_byte
mask_from-twice i key [] h = refl
mask_from-twice i key (b ∷ bs) h =
    ap (λ k. k ∷ mask_from (suc i) key (mask_from (suc i) key bs))
      (xor_bits-twice 8 b (get_or key (i % 4) 0) h.0)
    ∙ ap (λ k. b ∷ k) (mask_from-twice (suc i) key bs h.1)

pub masked-twice : (key bs : Text) → AreBytes bs → masked key (masked key bs) ≡ bs
unfolding masked
masked-twice key bs h = mask_from-twice 0 key bs h

length-mask_from : (i : ℕ) (key bs : Text) → length (mask_from i key bs) ≡ length bs
unfolding mask_from
length-mask_from i key [] = refl
length-mask_from i key (b ∷ bs) = ap suc (length-mask_from (suc i) key bs)

pub length-masked : (key bs : Text) → length (masked key bs) ≡ length bs
unfolding masked
length-masked key bs = length-mask_from 0 key bs
