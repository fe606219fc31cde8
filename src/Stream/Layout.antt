-- ===== src/Stream/Layout.antt =====
-- The cumulative address space of a segmented stream.
use pvr_dispatcharrai.Prelude.{ℕ, ◌+◌, ◌≤◌, ◌<◌, ◌≡◌, ap, some, List, [], ◌∷◌, ◌++◌, ℤ, ◌≤ℤ◌, arith}
use native.Mathlib.Decide.{dec_lt}
use pvr_dispatcharrai.Stream.{SegmentT, locate}

module _ {A : Type 0} ⦃seg : SegmentT A⦄ where
  open seg use {byte_offset, byte_size, time_offset_ms}

  -- The segments fill the bytes from `b` up to `e` without gap or overlap, none of them empty.
  abbrev pub Contiguous : ℕ → List A → ℕ → Type 0
  Contiguous b [] e = b ≡ e
  Contiguous b (s ∷ ss) e =
      (byte_offset s ≡ b) × (0 < byte_size s) × Contiguous (b + byte_size s) ss e

  -- The time offsets do not fall, from `t` on and up to `e`.
  abbrev pub Timed : ℤ → List A → ℤ → Type 0
  Timed t [] e = t ≤ℤ e
  Timed t (s ∷ ss) e = (t ≤ℤ time_offset_ms s) × Timed (time_offset_ms s) ss e

  pub Contiguous-append :
      (b m e : ℕ) (xs ys : List A)
      → Contiguous b xs m
      → Contiguous m ys e
      → Contiguous b (xs ++ ys) e
  Contiguous-append b m e [] ys h k = rw h k
  Contiguous-append b m e (x ∷ xs) ys h k =
      (h.0, h.1, Contiguous-append (b + byte_size x) m e xs ys h.2 k)

  pub Contiguous-le : (b e : ℕ) (xs : List A) → Contiguous b xs e → b ≤ e
  Contiguous-le b e [] h = omega arith
  Contiguous-le b e (x ∷ xs) h = omega (arith, Contiguous-le (b + byte_size x) e xs h.2)

  -- Every byte of a contiguous space is in the segment that the search finds.
  pub locate_total :
      (b e p : ℕ) (ss : List A)
      → Contiguous b ss e
      → b ≤ p
      → p < e
      → (s : A) × (locate p ss ≡ some s) × (byte_offset s ≤ p) × (p < byte_offset s + byte_size s)
  unfolding locate
  locate_total b e p [] h lo hi = absurd (omega arith)
  locate_total b e p (s ∷ ss) h lo hi = elim (dec_lt p (b + byte_size s)) [
    | yes near ↦ (s, ground arith, omega arith, omega arith)
    | no far ↦
        let (x, e1, e2, e3) = locate_total (b + byte_size s) e p ss h.2 (omega arith) hi in
        (x, ground arith, e2, e3)
  ]

  -- What a search finds is not changed by segments behind.
  pub locate-append :
      (p : ℕ) (xs ys : List A) (s : A) → locate p xs ≡ some s → locate p (xs ++ ys) ≡ some s
  unfolding locate
  locate-append p [] ys s h = cc
  locate-append p (x ∷ xs) ys s h = ground (arith, locate-append p xs ys s)

  pub locate_inside :
      (p : ℕ) (ss : List A) (s : A)
      → locate p ss ≡ some s
      → (byte_offset s ≤ p) × (p < byte_offset s + byte_size s)
  unfolding locate
  locate_inside p [] s h = cc
  locate_inside p (x ∷ ss) s h = ground (arith, locate_inside p ss s)

  locate_from :
      (b e p : ℕ) (ss : List A) (s : A)
      → Contiguous b ss e
      → locate p ss ≡ some s
      → b ≤ byte_offset s
  unfolding locate
  locate_from b e p [] s h found = cc
  locate_from b e p (x ∷ ss) s h found =
      ground (arith, ap byte_offset {x = x} {y = s}, locate_from (b + byte_size x) e p ss s h.2)

  pub locate_end :
      (b e p : ℕ) (ss : List A) (s : A)
      → Contiguous b ss e
      → locate p ss ≡ some s
      → byte_offset s + byte_size s ≤ e
  unfolding locate
  locate_end b e p [] s h found = cc
  locate_end b e p (x ∷ ss) s h found = ground (
    arith,
    ap byte_offset {x = x} {y = s},
    ap byte_size {x = x} {y = s},
    Contiguous-le (b + byte_size x) e ss h.2,
    locate_end (b + byte_size x) e p ss s h.2,
  )

  -- The segment found at a position is found at its own first byte too.
  pub locate_start :
      (b e p : ℕ) (ss : List A) (s : A)
      → Contiguous b ss e
      → locate p ss ≡ some s
      → locate (byte_offset s) ss ≡ some s
  unfolding locate
  locate_start b e p [] s h found = cc
  locate_start b e p (x ∷ ss) s h found = ground (
    arith,
    ap byte_offset {x = x} {y = s},
    locate_from (b + byte_size x) e p ss s h.2,
    locate_start (b + byte_size x) e p ss s h.2,
  )

  -- Two segments found in one space that begin at the same byte are the same.
  pub locate_unique :
      (b e p q : ℕ) (ss : List A) (s t : A)
      → Contiguous b ss e
      → locate p ss ≡ some s
      → locate q ss ≡ some t
      → byte_offset s ≡ byte_offset t
      → s ≡ t
  locate_unique b e p q ss s t h hs ht same = cc (
    locate_start b e p ss s h hs,
    locate_start b e q ss t h ht,
    ap (λ k. locate k ss) {x = byte_offset s} {y = byte_offset t} same,
  )
