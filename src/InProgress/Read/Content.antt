-- ===== src/InProgress/Read/Content.antt =====
-- Reads against the bytes of the recording.
use pvr_dispatcharrai.Prelude.{
  ℕ, zero, suc, ◌+◌, ◌-◌, ◌≤◌, ◌<◌, ◌≡◌, refl, sym, subst, ap, ◌∙◌, ◌⊎◌, inl, inr, Bool, true,
  false, Bool-cases, if_both, Option, none, some, [], take, drop, length, length-take, length-drop,
  min, arith, leb, not, ◌&&◌, ◌==◌, if_split, if◌then◌else◌,
}
use pvr_dispatcharrai.Prelude.Text.{Text}
use pvr_dispatcharrai.Http.{Reply, write_callback, retried, retried_both, generate_api_key}
use pvr_dispatcharrai.Stream.{locate}
use pvr_dispatcharrai.Stream.Layout.{
  locate_total, locate_inside, locate_end, locate_start, locate_unique,
}
use pvr_dispatcharrai.Stream.Content.{locate-Sized, locate-content}
use pvr_dispatcharrai.InProgress.{SegmentInfo, SegmentInfo-SegmentT, StreamState, Client}
use pvr_dispatcharrai.InProgress.Served.{body, recorded, IsCached, Served}
use pvr_dispatcharrai.InProgress.Read.{
  ReadEnv, Outcome, failed, bytes, copy_cached, judge_segment, fetch_segment, ensure_cached,
  copy_if, read_found, read_located, is_position,
}

-- `content` is the body that the server has for each segment URL.
is_position→eq : (o : Option ℕ) (p : ℕ) → is_position o p ≡ true → o ≡ some p
is_position→eq none p h = cc
is_position→eq (some q) p h = ground arith

-- The transfer library finished the transfer, with 200.
abbrev was_brought : Reply → Bool
was_brought r = r.handle && (r.sent_ok && (r.http_code == 200))

-- The first or the second request for segment `g`, under the key that `d` has, did not bring it.
abbrev Unfetched : ReadEnv → SegmentInfo → Client → Type 0
Unfetched env g d = (i : ℕ) × (i ≤ 1) × (was_brought (env.fetch i d.api_key g.url) ≡ false)

-- That segment is the one at the position.
abbrev pub Unread : ReadEnv → Client → Type 0
Unread env d =
    (g : SegmentInfo) × (locate d.stream.position d.stream.segments ≡ some g) × Unfetched env g d

no_handle : (r : Reply) (b : Bool) → (not b && not r.handle) ≡ true → was_brought r ≡ false
no_handle r b h = ground arith

not_sent : (r : Reply) → not r.sent_ok ≡ true → was_brought r ≡ false
not_sent r h = ground arith

other_code : (r : Reply) → not (r.http_code == 200) ≡ true → was_brought r ≡ false
other_code r h = ground arith

was_sent : (r : Reply) → not r.sent_ok ≡ false → r.sent_ok ≡ true
was_sent r h = ground arith

is_ok : (r : Reply) → not (r.http_code == 200) ≡ false → r.http_code ≡ 200
is_ok r h = ground arith

first_only : (c i : ℕ) → ((c == 401) && (i == 0)) ≡ true → i ≡ 0
first_only c i h = ground arith

module _ (content : Text → Text) where
  -- A segment request that the transfer library finished, with 200, carries the segment's body.
  -- Of a transfer that broke off nothing is said, whatever its code.
  abbrev pub IsHonest : ReadEnv → Type 0
  IsHonest env =
      (i : ℕ) (key url : Text)
      → (env.fetch i key url).sent_ok ≡ true
      → (env.fetch i key url).http_code ≡ 200
      → write_callback [] (env.fetch i key url).chunks ≡ content url

  -- Only the handle, the key and the segment cache of a client differ.
  pub record SameSpace (c d : Client) : Type 0 where
    pub segments : d.stream.segments ≡ c.stream.segments
    pub total : d.stream.total_bytes ≡ c.stream.total_bytes
    pub position : d.stream.position ≡ c.stream.position

  -- What an attempt to have segment `g` cached comes to.
  abbrev Fetched : ReadEnv → SegmentInfo → Client → Bool × Client → Type 0
  Fetched env g c r =
      SameSpace c r.1
      × ((r.0 ≡ false)
            × (r.1.stream.cached_segment_byte_offset ≡ c.stream.cached_segment_byte_offset)
            × (r.1.stream.cached_segment_bytes ≡ c.stream.cached_segment_bytes)
            × Unfetched env g r.1
          ⊎ (r.0 ≡ true)
            × (r.1.stream.cached_segment_byte_offset ≡ some g.byte_offset)
            × (r.1.stream.cached_segment_bytes ≡ body content g))

  judge_segment-Fetched :
      (env : ReadEnv) (g : SegmentInfo) (i : ℕ) (c : Client)
      → IsHonest env
      → i ≤ 1
      → Fetched env g c (judge_segment g (env.fetch i c.api_key g.url) c)
  unfolding judge_segment
  judge_segment-Fetched env g i c honest early =
      let r = env.fetch i c.api_key g.url in
      let P : Bool × Client → Type 0 = Fetched env g c in
      let kept : Client = record c { stream = record c.stream { curl = true } } in
      let dropped : Client = record c { stream = record c.stream { curl = false } } in
      let good : Client = record c {
        stream = record c.stream {
          curl = true;
          cached_segment_bytes = write_callback [] r.chunks;
          cached_segment_byte_offset = some g.byte_offset;
        };
      } in
      let rest : Bool × Client = if not (r.http_code == 200) then (false, kept) else (true, good) in
      if_split P (not r.sent_ok) {x = (false, dropped)} {y = rest}
        (λ e. (
          record { segments = refl; total = refl; position = refl },
          inl (refl, refl, refl, (i, early, not_sent r e)),
        ))
        λ sent.
          if_split P (not (r.http_code == 200)) {x = (false, kept)} {y = (true, good)}
            (λ e. (
              record { segments = refl; total = refl; position = refl },
              inl (refl, refl, refl, (i, early, other_code r e)),
            ))
            (λ e. (
              record { segments = refl; total = refl; position = refl },
              inr (refl, refl, honest i c.api_key g.url (was_sent r sent) (is_ok r e)),
            ))

  fetch_segment-Fetched :
      (env : ReadEnv) (g : SegmentInfo) (left i : ℕ) (c : Client)
      → IsHonest env
      → i ≤ 1
      → i + left ≡ 2
      → Fetched env g c (fetch_segment env g left i c)
  unfolding fetch_segment
  fetch_segment-Fetched env g zero i c honest early two = absurd (omega arith)
  fetch_segment-Fetched env g (suc left) i c honest early two =
      let r = env.fetch i c.api_key g.url in
      let P : Bool × Client → Type 0 = Fetched env g c in
      let again : Text → Bool × Client = λ k.
        fetch_segment env g left (suc i)
          (record c { stream = record c.stream { curl = true }; api_key = k }) in
      let judged = judge_segment g r c in
      let key = generate_api_key env.regenerated in
      let retry : Bool × Client = retried key judged again in
      let rest : Bool × Client = if (r.http_code == 401) && (i == 0) then retry else judged in
      let fine : P judged = judge_segment-Fetched env g i c honest early in
      if_split P (not c.stream.curl && not r.handle) {x = (false, c)} {y = rest}
        (λ e. (
          record { segments = refl; total = refl; position = refl },
          inl (refl, refl, refl, (i, early, no_handle r c.stream.curl e)),
        ))
        λ _.
          if_split P ((r.http_code == 401) && (i == 0)) {x = retry} {y = judged}
            (λ e. retried_both P key judged again fine (λ k.
              let first = first_only r.http_code i e in
              let f =
                fetch_segment-Fetched env g left (suc i)
                  (record c { stream = record c.stream { curl = true }; api_key = k }) honest
                  (omega arith) (omega arith) in
              (
                record { segments = f.0.segments; total = f.0.total; position = f.0.position },
                f.1,
              )))
            (λ _. fine)

  cached_body :
      (s : StreamState) (g : SegmentInfo)
      → Served content s
      → locate s.position s.segments ≡ some g
      → s.cached_segment_byte_offset ≡ some g.byte_offset
      → s.cached_segment_bytes ≡ body content g
  cached_body s g served found hit = go served.cached
    where
      go : IsCached content s → s.cached_segment_bytes ≡ body content g
      go (inl empty) = cc
      go (inr (h, at_h, offset_h, bytes_h)) =
          let same : h.byte_offset ≡ g.byte_offset = ground arith in
          bytes_h
          ∙ ap (body content) (
              locate_unique 0 s.total_bytes h.byte_offset s.position s.segments h g served.valid
                at_h found same)

  ensure_cached-Fetched :
      (env : ReadEnv) (g : SegmentInfo) (c : Client)
      → IsHonest env
      → Served content c.stream
      → locate c.stream.position c.stream.segments ≡ some g
      → Fetched env g c (ensure_cached env g c)
  unfolding ensure_cached
  ensure_cached-Fetched env g c honest served found =
      elim (Bool-cases (is_position c.stream.cached_segment_byte_offset g.byte_offset)) [
        | inl hit ↦
            let at_g = is_position→eq c.stream.cached_segment_byte_offset g.byte_offset hit in
            rw (hit, ensure_cached)
              (
                record { segments = refl; total = refl; position = refl },
                inr (refl, at_g, cached_body c.stream g served found at_g),
              )
        | inr miss ↦
            rw (miss, ensure_cached) (fetch_segment-Fetched env g 2 0 c honest (omega arith) refl)
      ]

  -- What a read of at most `size` bytes at a client's position may come to.
  pub record Delivers (size : ℕ) (c : Client) (xs : Text) (d : Client) : Type 0 where
    pub some_bytes : 0 < length xs
    pub at_most : length xs ≤ size
    pub from_recording : xs ≡ take (length xs) (drop c.stream.position (recorded content c.stream))
    pub advanced : d.stream.position ≡ c.stream.position + length xs
    pub in_space : d.stream.position ≤ c.stream.total_bytes
    pub segments : d.stream.segments ≡ c.stream.segments
    pub total : d.stream.total_bytes ≡ c.stream.total_bytes

  abbrev pub Reads : ReadEnv → ℕ → Client → Outcome × Client → Type 0
  Reads env size c r =
      ((r.0 ≡ failed) × SameSpace c r.1 × Unread env r.1)
      ⊎ ((xs : Text) × (r.0 ≡ bytes xs) × Delivers size c xs r.1)

  -- The bytes of a located segment, from a position on, are the recording's.
  segment_bytes :
      (s : StreamState) (g : SegmentInfo) (p w : ℕ)
      → Served content s
      → locate s.position s.segments ≡ some g
      → s.position < s.total_bytes
      → p ≡ s.position
      → w ≤ g.byte_size - (p - g.byte_offset)
      → take w (drop (p - g.byte_offset) (body content g))
        ≡ take w (drop s.position (recorded content s))
  segment_bytes s g p w served found inside same fits = rw same (
      locate-content (body content) 0 s.total_bytes s.position w s.segments served.valid
        served.sized (omega arith) inside found (omega arith)
      ∙ ap (λ k. take w (drop k (recorded content s))) {x = s.position - 0} (omega arith))

  copy_cached-Reads :
      (env : ReadEnv) (size : ℕ) (g : SegmentInfo) (c d : Client)
      → 0 < size
      → Served content c.stream
      → locate c.stream.position c.stream.segments ≡ some g
      → c.stream.position < c.stream.total_bytes
      → SameSpace c d
      → d.stream.cached_segment_bytes ≡ body content g
      → Reads env size c (copy_cached size g.byte_offset d)
  unfolding copy_cached
  copy_cached-Reads env size g c d some_size served found inside same cached =
      let held = d.stream.cached_segment_bytes in
      let off = d.stream.position - g.byte_offset in
      let w = min size (length held - off) in
      let (after, before) = locate_inside c.stream.position c.stream.segments g found in
      let end =
        locate_end 0 c.stream.total_bytes c.stream.position c.stream.segments g served.valid
          found in
      let held_size : length held ≡ g.byte_size =
        ap length cached
        ∙ locate-Sized (body content) c.stream.position c.stream.segments g served.sized found in
      let not_past : leb (length held) off ≡ false = ground (arith, same.position) in
      let copied : length (take w (drop off held)) ≡ w =
        omega (arith, length-take w (drop off held), length-drop off held) in
      let fits : w ≤ g.byte_size - off = omega (arith, held_size) in
      let from : take w (drop off held)
          ≡ take w (drop c.stream.position (recorded content c.stream)) =
        ap (λ t. take w (drop off t)) cached
        ∙ segment_bytes c.stream g d.stream.position w served found inside same.position fits in
      rw (not_past, copy_cached)
        (inr (
          take w (drop off held),
          refl,
          record {
            some_bytes = rw copied (omega (arith, same.position, held_size));
            at_most = rw copied (omega arith);
            from_recording = rw copied from;
            advanced = rw copied (omega (arith, same.position));
            in_space = omega (arith, same.position, held_size);
            segments = same.segments;
            total = same.total;
          },
        ))

  copy_if-Reads :
      (env : ReadEnv) (size : ℕ) (g : SegmentInfo) (c : Client) (r : Bool × Client)
      → 0 < size
      → Served content c.stream
      → locate c.stream.position c.stream.segments ≡ some g
      → c.stream.position < c.stream.total_bytes
      → Fetched env g c r
      → Reads env size c (copy_if size g r)
  unfolding copy_if
  copy_if-Reads env size g c (false, d) some_size served found inside (same, inl no_body) =
      inl (refl, same, (g, rw (same.position, same.segments) found, no_body.3))
  copy_if-Reads env size g c (false, d) some_size served found inside (same, inr got) = cc (got.0)
  copy_if-Reads env size g c (true, d) some_size served found inside (same, inl no_body) =
      cc (no_body.0)
  copy_if-Reads env size g c (true, d) some_size served found inside (same, inr (_, at_g, held)) =
      copy_cached-Reads env size g c d some_size served found inside same held

  -- Below the known end, and against a server whose finished answers with 200 carry the segment, a read
  -- either fails, when the request for the segment at the position did not bring it, and leaves the
  -- position where it was, or it writes at least one byte and at most
  -- `size`, exactly the recording's bytes from the read position on, and moves the position behind
  -- them. The search for the segment never comes back empty.
  pub read_located-Reads :
      (env : ReadEnv) (size : ℕ) (c : Client)
      → IsHonest env
      → Served content c.stream
      → c.stream.position < c.stream.total_bytes
      → 0 < size
      → Reads env size c (read_located env size c)
  unfolding read_located
  read_located-Reads env size c honest served inside some_size =
      let (g, found, after, before) =
        locate_total 0 c.stream.total_bytes c.stream.position c.stream.segments served.valid
          (omega arith) inside in
      subst (λ (o : Option SegmentInfo). Reads env size c (read_found env size c o)) (sym found)
        (copy_if-Reads env size g c (ensure_cached env g c) some_size served found inside
          (ensure_cached-Fetched env g c honest served found))

  Served-moved :
      (s t : StreamState)
      → t.segments ≡ s.segments
      → t.total_bytes ≡ s.total_bytes
      → IsCached content t
      → Served content s
      → Served content t
  Served-moved s t segs total cached served = record {
    valid = rw (segs, total) served.valid;
    sized = rw segs served.sized;
    cached = cached;
  }

  IsCached-Fetched :
      (env : ReadEnv) (g : SegmentInfo) (c : Client) (r : Bool × Client)
      → Served content c.stream
      → locate c.stream.position c.stream.segments ≡ some g
      → Fetched env g c r
      → IsCached content r.1.stream
  IsCached-Fetched env g c r served found (same, inr (_, offset, held)) =
      let start =
        locate_start 0 c.stream.total_bytes c.stream.position c.stream.segments g served.valid
          found in
      inr (g, ap (locate g.byte_offset) same.segments ∙ start, offset, held)
  IsCached-Fetched env g c r served found (same, inl (_, offset, held, _)) = go served.cached
    where
      go : IsCached content c.stream → IsCached content r.1.stream
      go (inl empty) = inl (offset ∙ empty)
      go (inr (h, at_h, offset_h, held_h)) =
          inr (h, ap (locate h.byte_offset) same.segments ∙ at_h, offset ∙ offset_h, held ∙ held_h)

  copy_if-Served :
      (size : ℕ) (g : SegmentInfo) (r : Bool × Client)
      → Served content r.1.stream
      → Served content (copy_if size g r).1.stream
  unfolding copy_if copy_cached
  copy_if-Served size g (false, d) served = served
  copy_if-Served size g (true, d) served =
      let offset = d.stream.position - g.byte_offset in
      let held = d.stream.cached_segment_bytes in
      let moved : Outcome × Client = (
        bytes (take (min size (length held - offset)) (drop offset held)),
        record d {
          stream = record d.stream {
            position = d.stream.position + min size (length held - offset);
          };
        },
      ) in
      if_both (λ (q : Outcome × Client). Served content q.1.stream) (leb (length held) offset)
        {x = (bytes [], d)} {y = moved} served
        (record { valid = served.valid; sized = served.sized; cached = served.cached })

  -- A read keeps the stream a description of the server's recording.
  pub read_located-Served :
      (env : ReadEnv) (size : ℕ) (c : Client)
      → IsHonest env
      → Served content c.stream
      → Served content (read_located env size c).1.stream
  unfolding read_located read_found
  read_located-Served env size c honest served =
      go (locate c.stream.position c.stream.segments) refl
    where
      go :
          (o : Option SegmentInfo)
          → locate c.stream.position c.stream.segments ≡ o
          → Served content (read_found env size c o).1.stream
      go none found = served
      go (some g) found =
          let f = ensure_cached-Fetched env g c honest served found in
          copy_if-Served size g (ensure_cached env g c) (
            Served-moved c.stream _ f.0.segments f.0.total
              (IsCached-Fetched env g c (ensure_cached env g c) served found f) served)
