-- ===== src/WebSocket/Receive/Frames/Bounds.antt =====
-- What a frame takes off the bytes to come, and how long its payload is.
use pvr_dispatcharrai.Prelude.{
  ℕ, ◌+◌, ◌%◌, ◌≤◌, ◌≡◌, refl, ap, ◌∙◌, Bool, true, false, ◌==◌, ltb, leb, if_split, if_both, [],
  length, length-append, get_or, arith,
}
use pvr_dispatcharrai.Prelude.Text.{Text}
use pvr_dispatcharrai.WebSocket.{Socket, failed, Read, got, stopped, Reader, on_got, ret}
use pvr_dispatcharrai.WebSocket.Buffer.{read_exact, stream}
use pvr_dispatcharrai.WebSocket.Queue.{IsValid, Reads, read_exact-Reads}
use pvr_dispatcharrai.WebSocket.Send.Masks.{length-masked}
use pvr_dispatcharrai.WebSocket.Receive.Frames.{
  Frame, max_frame_payload, big_endian, read_length, is_too_long, check_length, read_key, unmask,
  read_payload, read_body, read_frame,
}

-- A property of what is read, if anything is; the buffer is valid if nothing is.
abbrev pub After : {A : Type 0} → (A → Socket → Type 0) → Read A × Socket → Type 0
After P (got a, t) = P a t
After P (stopped e, t) = IsValid t

on_got-After :
    {A B : Type 0} (P : A → Socket → Type 0) (Q : B → Socket → Type 0) (f : A → Reader B)
    (r : Read A × Socket)
    → After P r
    → ((a : A) (t : Socket) → P a t → After Q (f a t))
    → After Q (on_got f r)
on_got-After P Q f (got a, t) h k = k a t h
on_got-After P Q f (stopped e, t) h k = h

-- Nothing is added to the bytes to come, and `n` are taken at least.
abbrev pub Takes : ℕ → Socket → Socket → Type 0
Takes n s t = IsValid t × (length (stream t) + n ≤ length (stream s))

taken :
    (len : ℕ) (s : Socket) (r : Read Text × Socket)
    → Reads len s r
    → After (λ xs t. Takes len s t × (length xs ≡ len)) r
taken len s (got xs, t) h =
    ((h.0, omega (arith, h.1, ap length h.2, length-append xs (stream t))), h.1)
taken len s (stopped e, t) h = h.0

read_exact-Takes :
    (len : ℕ) (s : Socket)
    → IsValid s
    → After (λ xs t. Takes len s t × (length xs ≡ len)) (read_exact len s)
read_exact-Takes len s v = taken len s (read_exact len s) (read_exact-Reads len s v)

takes_some : (n : ℕ) (s t : Socket) → Takes n s t → Takes 0 s t
takes_some n s t h = (h.0, omega (arith, h.1))

extension-Takes :
    (n : ℕ) (s : Socket)
    → IsValid s
    → After (λ len t. Takes 0 s t) (on_got (λ ext. ret (big_endian 0 ext)) (read_exact n s))
extension-Takes n s v =
    on_got-After (λ xs t. Takes n s t × (length xs ≡ n)) (λ len t. Takes 0 s t)
      (λ ext. ret (big_endian 0 ext)) (read_exact n s) (read_exact-Takes n s v)
      (λ xs t h. takes_some n s t h.0)

read_length-Takes :
    (short : ℕ) (s : Socket) → IsValid s → After (λ len t. Takes 0 s t) (read_length short s)
unfolding read_length
read_length-Takes short s v =
    let P = λ (r : Read ℕ × Socket). After (λ len t. Takes 0 s t) r in
    if_both P (short == 126) {x = on_got (λ ext. ret (big_endian 0 ext)) (read_exact 2 s)}
      (extension-Takes 2 s v)
      (if_both P (short == 127) {x = on_got (λ ext. ret (big_endian 0 ext)) (read_exact 8 s)}
        {y = ret short s} (extension-Takes 8 s v) (v, omega arith))

check_length-Takes :
    (assembled len : ℕ) (s : Socket)
    → IsValid s
    → After
        (λ u t. Takes 0 s t × (assembled + len ≤ max_frame_payload))
        (check_length assembled len s)
unfolding check_length is_too_long
check_length-Takes assembled len s v =
    if_split
      (λ (r : Read (Unit {0}) × Socket).
        After (λ u t. Takes 0 s t × (assembled + len ≤ max_frame_payload)) r)
      (is_too_long assembled len) {x = (stopped failed, s)} {y = (got tt, s)} (λ h. v)
      (λ h. ((v, omega arith), ground arith))

read_key-Takes :
    (is_masked : Bool) (s : Socket)
    → IsValid s
    → After (λ key t. Takes 0 s t) (read_key is_masked s)
unfolding read_key
read_key-Takes true s v = weaken (read_exact 4 s) (read_exact-Takes 4 s v)
  where
    weaken :
        (r : Read Text × Socket)
        → After (λ xs t. Takes 4 s t × (length xs ≡ 4)) r
        → After (λ xs t. Takes 0 s t) r
    weaken (got xs, t) h = takes_some 4 s t h.0
    weaken (stopped e, t) h = h
read_key-Takes false s v = (v, omega arith)

length-unmask : (is_masked : Bool) (key bs : Text) → length (unmask is_masked key bs) ≡ length bs
unfolding unmask
length-unmask true key bs = length-masked key bs
length-unmask false key bs = refl

read_payload-Takes :
    (is_masked : Bool) (key : Text) (len : ℕ) (s : Socket)
    → IsValid s
    → After (λ p t. Takes 0 s t × (length p ≡ len)) (read_payload is_masked key len s)
unfolding read_payload
read_payload-Takes is_masked key len s v =
    if_split (λ (r : Read Text × Socket). After (λ p t. Takes 0 s t × (length p ≡ len)) r)
      (ltb 0 len) {x = on_got (λ payload. ret (unmask is_masked key payload)) (read_exact len s)}
      {y = (got [], s)}
      (λ h.
        on_got-After (λ xs t. Takes len s t × (length xs ≡ len))
          (λ p t. Takes 0 s t × (length p ≡ len)) (λ payload. ret (unmask is_masked key payload))
          (read_exact len s) (read_exact-Takes len s v)
          (λ xs t k. (takes_some len s t k.0, length-unmask is_masked key xs ∙ k.1)))
      (λ h. ((v, omega arith), ground arith))

-- The payload fits beside what is assembled, and the frame takes `n` bytes at least.
abbrev pub FrameTakes : ℕ → ℕ → Socket → Frame → Socket → Type 0
FrameTakes n assembled s f t = Takes n s t × (assembled + length f.payload ≤ max_frame_payload)

takes_trans : (m n : ℕ) (s t w : Socket) → Takes m s t → Takes n t w → Takes (m + n) s w
takes_trans m n s t w h k = (k.0, omega (arith, h.1, k.1))

read_body-Takes :
    (assembled h0 h1 : ℕ) (s : Socket)
    → IsValid s
    → After (FrameTakes 0 assembled s) (read_body assembled h0 h1 s)
unfolding read_body
read_body-Takes assembled h0 h1 s v =
    on_got-After (λ len t. Takes 0 s t) (FrameTakes 0 assembled s) _ (read_length (h1 % 128) s)
      (read_length-Takes (h1 % 128) s v)
      (λ len t ht.
        on_got-After (λ u w. Takes 0 t w × (assembled + len ≤ max_frame_payload))
          (FrameTakes 0 assembled s) _ (check_length assembled len t)
          (check_length-Takes assembled len t ht.0)
          (λ u w hw.
            on_got-After (λ key x. Takes 0 w x) (FrameTakes 0 assembled s) _
              (read_key (leb 128 h1) w) (read_key-Takes (leb 128 h1) w hw.0.0)
              (λ key x hx.
                on_got-After (λ p y. Takes 0 x y × (length p ≡ len)) (FrameTakes 0 assembled s) _
                  (read_payload (leb 128 h1) key len x)
                  (read_payload-Takes (leb 128 h1) key len x hx.0)
                  (λ p y hy. (
                    (hy.0.0, omega (arith, ht.1, hw.0.1, hx.1, hy.0.1)),
                    omega (arith, hw.1, hy.1),
                  )))))

pub read_frame-Takes :
    (assembled : ℕ) (s : Socket)
    → IsValid s
    → After (FrameTakes 2 assembled s) (read_frame assembled s)
unfolding read_frame
read_frame-Takes assembled s v =
    on_got-After (λ xs t. Takes 2 s t × (length xs ≡ 2)) (FrameTakes 2 assembled s) _
      (read_exact 2 s) (read_exact-Takes 2 s v)
      (λ header t h.
        after_header s t h.0 (read_body assembled (get_or header 0 0) (get_or header 1 0) t)
          (read_body-Takes assembled (get_or header 0 0) (get_or header 1 0) t h.0.0))
  where
    after_header :
        (s t : Socket)
        → Takes 2 s t
        → (r : Read Frame × Socket) → After (FrameTakes 0 assembled t) r
        → After (FrameTakes 2 assembled s) r
    after_header s t h (got f, w) k = (takes_trans 2 0 s t w h k.0, k.1)
    after_header s t h (stopped e, w) k = k
