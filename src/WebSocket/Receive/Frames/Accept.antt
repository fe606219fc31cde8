-- ===== src/WebSocket/Receive/Frames/Accept.antt =====
-- A frame of RFC 6455, as a server writes it, and what is read of it.
use pvr_dispatcharrai.Prelude.{
  ℕ, ◌+◌, ◌/◌, ◌%◌, ◌≤◌, ◌<◌, ◌≡◌, refl, sym, ap, subst, ◌∙◌, Bool, true, false, ◌==◌, ltb, leb,
  if◌then◌else◌, if_split, not_le→leb, [], ◌∷◌, ◌++◌, append_assoc, length, arith,
}
use pvr_dispatcharrai.Prelude.Text.{Text}
use pvr_dispatcharrai.WebSocket.{Socket, failed, Read, got, stopped, Reader, on_got, ret}
use pvr_dispatcharrai.WebSocket.Buffer.{read_exact}
use pvr_dispatcharrai.WebSocket.Queue.Enough.{Gives, Answers, read_exact-Answers}
use pvr_dispatcharrai.WebSocket.Receive.Frames.{
  Frame, max_frame_payload, big_endian, read_length, is_too_long, check_length, read_key, unmask,
  read_payload, read_body, read_frame,
}

-- The second byte of a header without a mask, and the extended length.
abbrev pub encode_length : ℕ → ℕ × Text
encode_length n =
    if leb n 125
    then (n, [])
    else if ltb n 65536
    then (126, n / 256 ∷ n % 256 ∷ [])
    else (127, 0 ∷ 0 ∷ 0 ∷ 0 ∷ n / 16777216 ∷ n / 65536 % 256 ∷ n / 256 % 256 ∷ n % 256 ∷ [])

unfoldable pub encode_frame : Frame → Text
encode_frame f =
    let size = encode_length (length f.payload) in
    ((if f.fin then 128 else 0) + f.opcode) ∷ size.0 ∷ size.1 ++ f.payload

pub on_got-Answers :
    {A B : Type 0} (a : A) (b : B) (rest more : Text) (f : A → Reader B) (r : Read A × Socket)
    → Answers a rest r
    → ((t : Socket) → Gives rest t → Answers b more (f a t))
    → Answers b more (on_got f r)
on_got-Answers a b rest more f (got x, t) h k =
    subst (λ y. Answers b more (f y t)) (sym h.0) (k t h.1)
on_got-Answers a b rest more f (stopped e, t) h k = h

-- The length is read back.
Decodes : ℕ → ℕ × Text → Type 0
Decodes n p =
    (p.0 < 128)
    × ((rest : Text) (s : Socket) → Gives (p.1 ++ rest) s → Answers n rest (read_length p.0 s))

pub read_length-short :
    (n : ℕ) (s : Socket) → (n == 126) ≡ false → (n == 127) ≡ false → read_length n s ≡ ret n s
unfolding read_length
read_length-short n s h k = rw (h, k) refl

Decodes-small : (n : ℕ) → leb n 125 ≡ true → Decodes n (n, [])
unfolding Decodes
Decodes-small n h = (
  ground arith,
  λ rest s g.
      subst (Answers n rest) (sym (read_length-short n s (ground arith) (ground arith))) (refl, g),
)

Decodes-two : (n : ℕ) → n < 65536 → Decodes n (126, n / 256 ∷ n % 256 ∷ [])
unfolding Decodes read_length big_endian
Decodes-two n h = (
  omega arith,
  λ rest s g.
      let bytes = n / 256 ∷ n % 256 ∷ [] in
      on_got-Answers bytes n rest rest (λ ext. ret (big_endian 0 ext)) (read_exact 2 s)
        (read_exact-Answers bytes rest s g) (λ t k. (omega arith, k)),
)

Decodes-eight :
    (n : ℕ)
    → n < 4294967296
    → Decodes n (127, 0 ∷ 0 ∷ 0 ∷ 0 ∷ n / 16777216 ∷ n / 65536 % 256 ∷ n / 256 % 256 ∷ n % 256 ∷ [])
unfolding Decodes read_length big_endian
Decodes-eight n h = (
  omega arith,
  λ rest s g.
      let bytes = 0 ∷ 0 ∷ 0 ∷ 0 ∷ n / 16777216 ∷ n / 65536 % 256 ∷ n / 256 % 256 ∷ n % 256 ∷ [] in
      on_got-Answers bytes n rest rest (λ ext. ret (big_endian 0 ext)) (read_exact 8 s)
        (read_exact-Answers bytes rest s g) (λ t k. (omega arith, k)),
)

encode_length-Decodes : (n : ℕ) → n < 4294967296 → Decodes n (encode_length n)
encode_length-Decodes n h = if_split (Decodes n) (leb n 125) (Decodes-small n) (λ more.
    if_split (Decodes n) (ltb n 65536) (λ two. Decodes-two n (ground arith))
      (λ eight. Decodes-eight n h))

pub check_length-Answers :
    (assembled n : ℕ) (rest : Text) (s : Socket)
    → assembled + n ≤ max_frame_payload
    → Gives rest s
    → Answers tt rest (check_length assembled n s)
unfolding check_length is_too_long
check_length-Answers assembled n rest s h g =
    if_split (λ (r : Read (Unit {0}) × Socket). Answers tt rest r) (is_too_long assembled n)
      {x = (stopped failed, s)} {y = (got tt, s)} (λ e. ground arith) (λ e. (refl, g))

no_key : Text
no_key = 0 ∷ 0 ∷ 0 ∷ 0 ∷ []

read_key-Answers :
    (b : Bool) (rest : Text) (s : Socket)
    → b ≡ false
    → Gives rest s
    → Answers no_key rest (read_key b s)
unfolding read_key no_key
read_key-Answers true rest s e g = ground arith
read_key-Answers false rest s e g = (refl, g)

read_payload-Answers :
    (b : Bool) (p rest : Text) (s : Socket)
    → b ≡ false
    → Gives (p ++ rest) s
    → Answers p rest (read_payload b no_key (length p) s)
unfolding read_payload unmask
read_payload-Answers true p rest s e g = ground arith
read_payload-Answers false [] rest s e g = (refl, g)
read_payload-Answers false (x ∷ xs) rest s e g =
    if_split (λ (r : Read Text × Socket). Answers (x ∷ xs) rest r) (ltb 0 (length (x ∷ xs)))
      {x = on_got (λ payload. ret payload) (read_exact (length (x ∷ xs)) s)} {y = (got [], s)}
      (λ h.
        on_got-Answers (x ∷ xs) (x ∷ xs) rest rest (λ payload. ret payload)
          (read_exact (length (x ∷ xs)) s) (read_exact-Answers (x ∷ xs) rest s g)
          (λ t k. (refl, k)))
      (λ h. ground arith)

abbrev frame_read : ℕ → Text → Frame
frame_read h0 p = record { fin = leb 128 h0; opcode = h0 % 16; payload = p }

read_body-Answers :
    (assembled h0 : ℕ) (p rest : Text) (size : ℕ × Text) (s : Socket)
    → Decodes (length p) size
    → assembled + length p ≤ max_frame_payload
    → Gives (size.1 ++ (p ++ rest)) s
    → Answers (frame_read h0 p) rest (read_body assembled h0 size.0 s)
unfolding read_body Decodes
read_body-Answers assembled h0 p rest size s d h g =
    let n = length p in
    let frame = frame_read h0 p in
    let clear = not_le→leb 128 size.0 (omega (arith, d.0)) in
    on_got-Answers n frame (p ++ rest) rest _ (read_length (size.0 % 128) s)
      (subst (λ k. Answers n (p ++ rest) (read_length k s)) {x = size.0} {y = size.0 % 128}
        (omega (arith, d.0)) (d.1 (p ++ rest) s g))
      (λ t gt.
        on_got-Answers tt frame (p ++ rest) rest _ (check_length assembled n t)
          (check_length-Answers assembled n (p ++ rest) t h gt)
          (λ u gu.
            on_got-Answers no_key frame (p ++ rest) rest _ (read_key (leb 128 size.0) u)
              (read_key-Answers (leb 128 size.0) (p ++ rest) u clear gu)
              (λ w gw.
                on_got-Answers p frame rest rest _ (read_payload (leb 128 size.0) no_key n w)
                  (read_payload-Answers (leb 128 size.0) p rest w clear gw) (λ x gx. (refl, gx)))))

-- The first byte of a header, read back.
first_fin : (b : Bool) (op : ℕ) → op < 16 → leb 128 ((if b then 128 else 0) + op) ≡ b
first_fin true op h = ground arith
first_fin false op h = ground arith

first_opcode : (b : Bool) (op : ℕ) → op < 16 → ((if b then 128 else 0) + op) % 16 ≡ op
first_opcode true op h = omega arith
first_opcode false op h = omega arith

frame_read-encoded :
    (f : Frame) → f.opcode < 16 → frame_read ((if f.fin then 128 else 0) + f.opcode) f.payload ≡ f
frame_read-encoded f h =
    ap (λ b. record f { fin = b; opcode = ((if f.fin then 128 else 0) + f.opcode) % 16 })
      (first_fin f.fin f.opcode h)
    ∙ ap (λ n. record f { opcode = n }) (first_opcode f.fin f.opcode h)

within_four_bytes : (a n : ℕ) → a + n ≤ max_frame_payload → n < 4294967296
unfolding max_frame_payload
within_four_bytes a n h = omega arith

-- A frame of RFC 6455 is read back.
pub read_frame-Answers :
    (assembled : ℕ) (f : Frame) (rest : Text) (s : Socket)
    → f.opcode < 16
    → assembled + length f.payload ≤ max_frame_payload
    → Gives (encode_frame f ++ rest) s
    → Answers f rest (read_frame assembled s)
unfolding read_frame encode_frame
read_frame-Answers assembled f rest s h k g =
    let n = length f.payload in
    let size = encode_length n in
    let h0 = (if f.fin then 128 else 0) + f.opcode in
    let header = h0 ∷ size.0 ∷ [] in
    let more = size.1 ++ (f.payload ++ rest) in
    on_got-Answers header f more rest _ (read_exact 2 s)
      (read_exact-Answers header more s
        (g.0, g.1, g.2 ∙ ap (λ r. h0 ∷ size.0 ∷ r) (append_assoc size.1 f.payload rest)))
      (λ t gt.
        subst (λ e. Answers e rest (read_body assembled h0 size.0 t)) (frame_read-encoded f h)
          (read_body-Answers assembled h0 f.payload rest size t
            (encode_length-Decodes n (within_four_bytes assembled n k)) k gt))
