-- ===== src/InProgress/Session/Seek.antt =====
-- Where SeekInProgressRecordingStream lands.
use pvr_dispatcharrai.Prelude.{
  ℕ, ◌+◌, ◌-◌, ◌++◌, ◌+ℤ◌, subst, ◌≤◌, ◌<◌, ◌≡◌, ◌≢◌, refl, sym, ap, ◌∙◌, ◌⊎◌, inl, inr, true,
  Option, none, some, List, [], ◌∷◌, ℤ, pos, pos_part, ◌≤ℤ◌, ◌<ℤ◌, min, arith,
}
use pvr_dispatcharrai.Stream.{Whence, seek_set, seek_cur, seek_end, other, seek_target}
use pvr_dispatcharrai.Stream.Layout.{Contiguous}
use pvr_dispatcharrai.InProgress.{SegmentInfo, SegmentInfo-SegmentT, StreamState, Client, Doubles}
use pvr_dispatcharrai.InProgress.Refresh.{RefreshEnv, refresh_manifest}
use pvr_dispatcharrai.InProgress.Refresh.Layout.{
  IsValid, Extends-refl, Refreshed, refresh_manifest-Refreshed,
}
use pvr_dispatcharrai.InProgress.Session.{
  live_backoff_bytes, tail_target, land, before_seek, seek_stream,
}

live_backoff_bytes-le :
    (b e : ℕ) (ss : List SegmentInfo) → Contiguous b ss e → b + live_backoff_bytes ss ≤ e
unfolding live_backoff_bytes
live_backoff_bytes-le b e [] h = omega arith
live_backoff_bytes-le b e (s ∷ []) h = omega arith
live_backoff_bytes-le b e (s ∷ t ∷ ss) h =
    omega (arith, live_backoff_bytes-le (b + s.byte_size) e (t ∷ ss) h.2)

live_backoff_bytes-pos :
    (b e : ℕ) (s : SegmentInfo) (ss : List SegmentInfo)
    → Contiguous b (s ∷ ss) e
    → 0 < live_backoff_bytes (s ∷ ss)
unfolding live_backoff_bytes
live_backoff_bytes-pos b e s [] h = h.1
live_backoff_bytes-pos b e s (t ∷ ss) h = live_backoff_bytes-pos (b + s.byte_size) e t ss h.2

land_cases :
    (z : ℤ) (c : Client)
    → ((z <ℤ pos 0) × (land (some z) c ≡ (none, c)))
      ⊎ ((pos 0 ≤ℤ z)
          × (land (some z) c ≡ (
            some (min (pos_part z) (tail_target c.stream)),
            record c {
              stream = record c.stream { position = min (pos_part z) (tail_target c.stream) };
            },
          )))
unfolding land
land_cases z c = ground arith

backoff_bounds :
    (e : ℕ) (ss : List SegmentInfo)
    → Contiguous 0 ss e
    → ss ≢ []
    → (0 < live_backoff_bytes ss) × (live_backoff_bytes ss ≤ e)
backoff_bounds e [] h full = absurd (full refl)
backoff_bounds e (s ∷ ss) h full =
    (live_backoff_bytes-pos 0 e s ss h, omega (arith, live_backoff_bytes-le 0 e (s ∷ ss) h))

tail_bound :
    (s : StreamState) (q : ℕ)
    → q ≤ tail_target s
    → live_backoff_bytes s.segments ≤ s.total_bytes
    → q + live_backoff_bytes s.segments ≤ s.total_bytes
unfolding tail_target
tail_bound s q near fits = omega arith

-- A landing is at most at the tail target, and changes the position alone.
land_tail :
    (o : Option ℤ) (c d : Client) (q : ℕ)
    → land o c ≡ (some q, d)
    → (d.stream.position ≡ q)
      × (q ≤ tail_target c.stream)
      × (d.stream.segments ≡ c.stream.segments)
      × (d.stream.total_bytes ≡ c.stream.total_bytes)
unfolding land
land_tail none c d q e = cc
land_tail (some z) c d q e = ground arith

live_backoff_bytes-last :
    (front : List SegmentInfo) (last : SegmentInfo)
    → live_backoff_bytes (front ++ (last ∷ [])) ≡ last.byte_size
unfolding live_backoff_bytes
live_backoff_bytes-last [] last = refl
live_backoff_bytes-last (s ∷ []) last = refl
live_backoff_bytes-last (s ∷ t ∷ ss) last = live_backoff_bytes-last (t ∷ ss) last

snoc_not_nil : (front : List SegmentInfo) (last : SegmentInfo) → front ++ (last ∷ []) ≢ []
snoc_not_nil [] last = λ h. cc
snoc_not_nil (s ∷ ss) last = λ h. cc

-- `n` is the size of the last segment of `ss`, 0 where there is none.
abbrev IsLastSize : List SegmentInfo → ℕ → Type 0
IsLastSize ss n =
    (ss ≡ []) × (n ≡ 0)
    ⊎ (front : List SegmentInfo) × (last : SegmentInfo) × (ss ≡ front ++ (last ∷ []))
      × (n ≡ last.byte_size)

last_size : (ss : List SegmentInfo) → IsLastSize ss (live_backoff_bytes ss)
unfolding live_backoff_bytes
last_size [] = inl (refl, refl)
last_size (s ∷ []) = inr ([], s, refl, refl)
last_size (s ∷ t ∷ ss) = later (last_size (t ∷ ss))
  where
    later : {n : ℕ} → IsLastSize (t ∷ ss) n → IsLastSize (s ∷ t ∷ ss) n
    later (inl (e, z)) = absurd (cc)
    later (inr (front, last, e, size)) = inr (s ∷ front, last, ap (◌∷◌ s) e, size)

-- What a seek to byte `z` on the client `d` comes to.
abbrev pub Lands : ℤ → Client → Option ℕ × Client → Type 0
Lands z d r =
    (z <ℤ pos 0) × (r ≡ (none, d))
    ⊎ (pos 0 ≤ℤ z)
      × ((n : ℕ) × IsLastSize d.stream.segments n
          × (r ≡ (
            some (min (pos_part z) (d.stream.total_bytes - n)),
            record d {
              stream = record d.stream { position = min (pos_part z) (d.stream.total_bytes - n) };
            },
          )))

land-Lands : (z : ℤ) (d : Client) → Lands z d (land (some z) d)
unfolding tail_target
land-Lands z d = elim (land_cases z d) [
  | inl (negative, e) ↦ inl (negative, e)
  | inr (positive, e) ↦
      inr (positive, (live_backoff_bytes d.stream.segments, last_size d.stream.segments, e))
]

module _ (D : Doubles) where
  -- The client at the end of a seek, before the landing.
  abbrev looked : RefreshEnv → Whence → Client → Client
  looked env whence c =
      before_seek D whence env (record c { stream = record c.stream { last_seek_time = env.now } })

  before_seek-Refreshed :
      (whence : Whence) (env : RefreshEnv) (c : Client) → Refreshed D c (before_seek D whence env c)
  unfolding before_seek
  before_seek-Refreshed seek_end env c = refresh_manifest-Refreshed D true env c
  before_seek-Refreshed _ env c = record { extends = Extends-refl c.stream; valid = λ v. v }

  same_start :
      (env : RefreshEnv) (whence : Whence) (c : Client)
      → (looked env whence c).stream.position ≡ c.stream.position
  same_start env whence c =
      (before_seek-Refreshed whence env
        (record c { stream = record c.stream { last_seek_time = env.now } })).extends.same_position

  seek_open :
      (env : RefreshEnv) (position : ℤ) (whence : Whence) (c : Client)
      → c.stream.is_open ≡ true
      → seek_stream D env position whence c
        ≡ land
            (seek_target whence position
              (looked env whence c).stream.position
              (looked env whence c).stream.total_bytes)
            (looked env whence c)
  unfolding seek_stream
  seek_open env position whence c opened = ground arith

  -- On an open stream, a seek notes its time. Its target is the position asked for, from byte 0,
  -- from the read position, or, after a forced refresh, from the end that is known then. A target
  -- below byte 0 gives -1 and changes nothing else; any other becomes the position and is returned,
  -- but it is held the last segment's size before the known end. Another whence gives -1.
  pub seek_stream_lem :
      (env : RefreshEnv) (position : ℤ) (c : Client)
      → c.stream.is_open ≡ true
      → let noted : Client = record c { stream = record c.stream { last_seek_time = env.now } } in
        let fresh = (refresh_manifest D true env noted).1 in
        Lands position noted (seek_stream D env position seek_set c)
        × Lands (pos c.stream.position +ℤ position) noted (seek_stream D env position seek_cur c)
        × Lands
            (pos fresh.stream.total_bytes +ℤ position)
            fresh
            (seek_stream D env position seek_end c)
        × (seek_stream D env position other c ≡ (none, noted))
  unfolding before_seek seek_target land
  seek_stream_lem env position c opened =
      let noted : Client = record c { stream = record c.stream { last_seek_time = env.now } } in
      let fresh = (refresh_manifest D true env noted).1 in
      (
        subst (Lands position noted) (sym (seek_open env position seek_set c opened))
            (land-Lands position noted),
        subst (Lands (pos c.stream.position +ℤ position) noted)
            (sym (seek_open env position seek_cur c opened))
            (land-Lands (pos c.stream.position +ℤ position) noted),
        subst (Lands (pos fresh.stream.total_bytes +ℤ position) fresh)
            (sym (seek_open env position seek_end c opened))
            (land-Lands (pos fresh.stream.total_bytes +ℤ position) fresh),
        seek_open env position other c opened,
      )

  -- A seek that succeeds on a contiguous stream with at least one segment lands before the known
  -- end, and at least the size of the last segment before it.
  pub seek_stream_leaves_segment :
      (env : RefreshEnv) (position : ℤ) (whence : Whence) (c d : Client) (q : ℕ)
      (front : List SegmentInfo) (last : SegmentInfo)
      → IsValid c.stream
      → c.stream.is_open ≡ true
      → seek_stream D env position whence c ≡ (some q, d)
      → d.stream.segments ≡ front ++ (last ∷ [])
      → (d.stream.position ≡ q)
        × (q + last.byte_size ≤ d.stream.total_bytes)
        × (q < d.stream.total_bytes)
  seek_stream_leaves_segment env position whence c d q front last valid opened e ends =
      let r =
        before_seek-Refreshed whence env
          (record c { stream = record c.stream { last_seek_time = env.now } }) in
      let m = looked env whence c in
      let (at, near, segs, total) =
        land_tail _ m d q (sym (seek_open env position whence c opened) ∙ e) in
      let (some_size, fits) =
        backoff_bounds m.stream.total_bytes m.stream.segments (r.valid valid)
          (λ empty. snoc_not_nil front last (sym ends ∙ segs ∙ empty)) in
      let size : live_backoff_bytes m.stream.segments ≡ last.byte_size =
        ap live_backoff_bytes (sym segs ∙ ends) ∙ live_backoff_bytes-last front last in
      let near_end = tail_bound m.stream q near fits in
      (at, omega (arith, near_end, size, total), omega (arith, near_end, some_size, total))
