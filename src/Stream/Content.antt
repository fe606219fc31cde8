-- ===== src/Stream/Content.antt =====
-- The bytes of a segmented stream: the bodies of its segments, one after the other.
use native.Mathlib.Decide.{dec_lt}
use pvr_dispatcharrai.Prelude.{
  ℕ, ◌+◌, ◌-◌, ◌≤◌, ◌<◌, ◌≡◌, sym, ap, ◌∙◌, some, List, [], ◌∷◌, ◌++◌, take, drop, length,
  take-append, drop-append, length-drop, take_at_zero, append-nil, arith, length-append, drop_all,
}
use pvr_dispatcharrai.Prelude.Text.{Text}
use pvr_dispatcharrai.Stream.{SegmentT, locate}
use pvr_dispatcharrai.Stream.Layout.{Contiguous}

take-drop-append :
    (n k : ℕ) (xs ys : Text)
    → k ≤ length xs
    → n ≤ length xs - k
    → take n (drop k (xs ++ ys)) ≡ take n (drop k xs)
take-drop-append n k xs ys h fits =
    rw
      (
        drop-append k xs ys,
        take-append n (drop k xs) (drop (k - length xs) ys),
        length-drop k xs,
        take_at_zero {n = n - (length xs - k)} (drop (k - length xs) ys) (omega arith),
      )
      (append-nil (take n (drop k xs)))

drop_past : (k : ℕ) (xs ys : Text) → length xs ≤ k → drop k (xs ++ ys) ≡ drop (k - length xs) ys
drop_past k xs ys h = rw (drop-append k xs ys, drop_all k xs h)

module _ {A : Type 0} ⦃seg : SegmentT A⦄ (body : A → Text) where
  open seg use {byte_offset, byte_size}

  -- The whole stream, from its first segment on.
  abbrev pub stream_bytes : List A → Text
  stream_bytes [] = []
  stream_bytes (s ∷ ss) = body s ++ stream_bytes ss

  -- Every body is as long as the segment's recorded size.
  abbrev pub Sized : List A → Type 0
  Sized [] = Unit {0}
  Sized (s ∷ ss) = (length (body s) ≡ byte_size s) × Sized ss

  pub length-stream_bytes :
      (b e : ℕ) (ss : List A) → Contiguous b ss e → Sized ss → b + length (stream_bytes ss) ≡ e
  length-stream_bytes b e [] h z = omega arith
  length-stream_bytes b e (s ∷ ss) h z = omega (
    arith,
    length-append (body s) (stream_bytes ss),
    length-stream_bytes (b + byte_size s) e ss h.2 z.1,
  )

  -- What the segment at a position holds from there on is what the stream holds there.
  pub locate-content :
      (b e p n : ℕ) (ss : List A) {s : A}
      → Contiguous b ss e
      → Sized ss
      → b ≤ p
      → p < e
      → locate p ss ≡ some s
      → n ≤ byte_size s - (p - byte_offset s)
      → take n (drop (p - byte_offset s) (body s)) ≡ take n (drop (p - b) (stream_bytes ss))
  unfolding locate
  locate-content b e p n [] h z lo hi found fits = absurd (omega arith)
  locate-content b e p n (x ∷ ss) {s} h z lo hi found fits = elim (dec_lt p (b + byte_size x)) [
    | yes near ↦
        let same : x ≡ s = ground arith in
        rw (← same) (
          sym (
            rw h.0 (
              take-drop-append n (p - b) (body x) (stream_bytes ss) (omega arith)
                (omega (arith, ap byte_size same, ap byte_offset same)))))
    | no far ↦
        rw (drop_past (p - b) (body x) (stream_bytes ss) (omega arith), z.0)
          (locate-content (b + byte_size x) e p n ss h.2 z.1 (omega arith) hi (ground arith) fits
            ∙ ap (λ k. take n (drop k (stream_bytes ss))) {x = p - (b + byte_size x)} (omega arith))
  ]

  pub locate-Sized :
      (p : ℕ) (ss : List A) (s : A)
      → Sized ss
      → locate p ss ≡ some s
      → length (body s) ≡ byte_size s
  unfolding locate
  locate-Sized p [] s z found = cc
  locate-Sized p (x ∷ ss) s z found = ground (
    arith,
    ap byte_size {x = x} {y = s},
    ap (λ t. length (body t)) {x = x} {y = s},
    locate-Sized p ss s z.1,
  )

  pub Sized-append : (xs ys : List A) → Sized xs → Sized ys → Sized (xs ++ ys)
  Sized-append [] ys h k = k
  Sized-append (x ∷ xs) ys h k = (h.0, Sized-append xs ys h.1 k)
