-- ===== src/WebSocket/Receive/Frames/Pong.antt =====
-- The frame that SendPong writes, read as ReceiveTextMessage reads a frame.
use pvr_dispatcharrai.Prelude.{
  ℕ, ◌+◌, ◌/◌, ◌%◌, ◌≤◌, ◌<◌, ◌≡◌, refl, sym, ap, subst, ◌∙◌, Bool, true, false, ltb, leb,
  if◌then◌else◌, if_split, [], ◌∷◌, ◌++◌, append_assoc, length, arith,
}
use pvr_dispatcharrai.Prelude.Text.{Text}
use pvr_dispatcharrai.WebSocket.{Socket, Read, got, on_got, ret}
use pvr_dispatcharrai.WebSocket.Buffer.{read_exact}
use pvr_dispatcharrai.WebSocket.Queue.Enough.{Gives, Answers, read_exact-Answers}
use pvr_dispatcharrai.WebSocket.Base64.RoundTrip.{AreBytes}
use pvr_dispatcharrai.WebSocket.Send.{masked, pong_frame}
use pvr_dispatcharrai.WebSocket.Send.Masks.{length-masked, masked-twice}
use pvr_dispatcharrai.WebSocket.Receive.Frames.{
  Frame, max_frame_payload, big_endian, read_length, check_length, read_key, unmask, read_payload,
  read_body, read_frame,
}
use pvr_dispatcharrai.WebSocket.Receive.Frames.Accept.{
  on_got-Answers, read_length-short, check_length-Answers,
}

-- The size of a masked frame, as SendPong writes it.
abbrev pong_size : ℕ → ℕ × Text
pong_size n = if leb n 125 then (128 + n, []) else (254, n / 256 % 256 ∷ n % 256 ∷ [])

MaskedSize : ℕ → ℕ × Text → Type 0
MaskedSize n p =
    (leb 128 p.0 ≡ true)
    × ((rest : Text) (s : Socket)
        → Gives (p.1 ++ rest) s
        → Answers n rest (read_length (p.0 % 128) s))

size_small : (n : ℕ) → leb n 125 ≡ true → MaskedSize n (128 + n, [])
unfolding MaskedSize
size_small n h = (
  ground arith,
  λ rest s g.
      subst (λ k. Answers n rest (read_length k s)) {x = n} {y = (128 + n) % 128} (mod_small n h)
        (subst (Answers n rest) (sym (read_length-short n s (ground arith) (ground arith)))
          (refl, g)),
)
  where
    mod_small : (n : ℕ) → leb n 125 ≡ true → n ≡ (128 + n) % 128
    mod_small n h = ground arith

size_two : (n : ℕ) → n < 65536 → MaskedSize n (254, n / 256 % 256 ∷ n % 256 ∷ [])
unfolding MaskedSize read_length big_endian
size_two n h = (
  refl,
  λ rest s g.
      let bytes = n / 256 % 256 ∷ n % 256 ∷ [] in
      on_got-Answers bytes n rest rest (λ ext. ret (big_endian 0 ext)) (read_exact 2 s)
        (read_exact-Answers bytes rest s g) (λ t k. (omega arith, k)),
)

pong_size-MaskedSize : (n : ℕ) → n < 65536 → MaskedSize n (pong_size n)
pong_size-MaskedSize n h = if_split (MaskedSize n) (leb n 125) (size_small n) (λ more. size_two n h)

key_read :
    (b : Bool) (key rest : Text) (s : Socket)
    → b ≡ true
    → length key ≡ 4
    → Gives (key ++ rest) s
    → Answers key rest (read_key b s)
unfolding read_key
key_read true key rest s e h g =
    subst (λ n. Answers key rest (read_exact n s)) h (read_exact-Answers key rest s g)
key_read false key rest s e h g = ground arith

payload_read :
    (b : Bool) (key p rest : Text) (s : Socket)
    → b ≡ true
    → AreBytes p
    → Gives (masked key p ++ rest) s
    → Answers p rest (read_payload b key (length p) s)
unfolding read_payload unmask
payload_read false key p rest s e h g = ground arith
payload_read true key [] rest s e h g = (refl, unfold masked in g)
payload_read true key (x ∷ xs) rest s e h g =
    let p = x ∷ xs in
    let hidden = masked key p in
    if_split (λ (r : Read Text × Socket). Answers p rest r) (ltb 0 (length p))
      {x = on_got (λ payload. ret (masked key payload)) (read_exact (length p) s)} {y = (got [], s)}
      (λ long.
        on_got-Answers hidden p rest rest (λ payload. ret (masked key payload))
          (read_exact (length p) s)
          (subst (λ n. Answers hidden rest (read_exact n s)) (length-masked key p)
            (read_exact-Answers hidden rest s g))
          (λ t k. (masked-twice key p h, k)))
      (λ short. ground arith)

abbrev pub pong : Text → Frame
pong p = record { fin = true; opcode = 10; payload = p }

pong_body :
    (key p rest : Text) (size : ℕ × Text) (s : Socket)
    → MaskedSize (length p) size
    → length key ≡ 4
    → AreBytes p
    → length p ≤ max_frame_payload
    → Gives (size.1 ++ (key ++ (masked key p ++ rest))) s
    → Answers (pong p) rest (read_body 0 138 size.0 s)
unfolding read_body MaskedSize
pong_body key p rest size s d hk hp hn g =
    let n = length p in
    let hidden = masked key p ++ rest in
    on_got-Answers n (pong p) (key ++ hidden) rest _ (read_length (size.0 % 128) s)
      (d.1 (key ++ hidden) s g)
      (λ t gt.
        on_got-Answers tt (pong p) (key ++ hidden) rest _ (check_length 0 n t)
          (check_length-Answers 0 n (key ++ hidden) t (omega arith) gt)
          (λ u gu.
            on_got-Answers key (pong p) hidden rest _ (read_key (leb 128 size.0) u)
              (key_read (leb 128 size.0) key hidden u d.0 hk gu)
              (λ w gw.
                on_got-Answers p (pong p) rest rest _ (read_payload (leb 128 size.0) key n w)
                  (payload_read (leb 128 size.0) key p rest w d.0 hp gw) (λ x gx. (refl, gx)))))

small_fits : (n : ℕ) → n < 65536 → n ≤ max_frame_payload
unfolding max_frame_payload
small_fits n h = omega arith

abbrev sized : Bool → ℕ → ℕ → ℕ → ℕ → ℕ × Text
sized b n x y z = if b then (128 + n, []) else (x, y ∷ z ∷ [])

parts :
    (b : Bool) (n x y z : ℕ) (key hidden rest : Text)
    → (138 ∷ (if b then (128 + n) ∷ [] else x ∷ y ∷ z ∷ []) ++ key ++ hidden) ++ rest
      ≡ 138 ∷ (sized b n x y z).0 ∷ ((sized b n x y z).1 ++ (key ++ (hidden ++ rest)))
parts true n x y z key hidden rest = ap (λ k. 138 ∷ (128 + n) ∷ k) (append_assoc key hidden rest)
parts false n x y z key hidden rest = ap (λ k. 138 ∷ x ∷ y ∷ z ∷ k) (append_assoc key hidden rest)

pong_frame_parts :
    (key p rest : Text)
    → pong_frame key p ++ rest
      ≡ 138
        ∷ (pong_size (length p)).0
        ∷ ((pong_size (length p)).1 ++ (key ++ (masked key p ++ rest)))
unfolding pong_frame
pong_frame_parts key p rest =
    let n = length p in parts (leb n 125) n 254 (n / 256 % 256) (n % 256) key (masked key p) rest

-- What SendPong writes for a payload of fewer than 65536 bytes, with any key of four bytes, is a
-- frame that reads, as ReceiveTextMessage reads frames, as a final pong with the payload.
pub read_frame-pong_frame :
    (key p rest : Text) (s : Socket)
    → length key ≡ 4
    → AreBytes p
    → length p < 65536
    → Gives (pong_frame key p ++ rest) s
    → Answers (pong p) rest (read_frame 0 s)
unfolding read_frame
read_frame-pong_frame key p rest s hk hp hn g =
    let size = pong_size (length p) in
    let more = size.1 ++ (key ++ (masked key p ++ rest)) in
    let header = 138 ∷ size.0 ∷ [] in
    on_got-Answers header (pong p) more rest _ (read_exact 2 s)
      (read_exact-Answers header more s (g.0, g.1, g.2 ∙ pong_frame_parts key p rest))
      (λ t gt.
        pong_body key p rest size t (pong_size-MaskedSize (length p) hn) hk hp
          (small_fits (length p) hn) gt)
