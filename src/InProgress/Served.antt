-- ===== src/InProgress/Served.antt =====
-- A stream against the recording that the server has, and that refreshes keep the two together.
use pvr_dispatcharrai.Prelude.{
  ℕ, ◌≡◌, ap, ◌∙◌, ◌⊎◌, inl, inr, Bool, true, Bool-cases, none, some, List, [], ◌∷◌, map, ℤ, pos,
  pos_part, ltb_ℤ, length,
}
use pvr_dispatcharrai.Prelude.Text.{Text}
use pvr_dispatcharrai.Stream.{locate}
use pvr_dispatcharrai.Stream.Layout.{locate-append}
use pvr_dispatcharrai.Stream.Content.{stream_bytes, Sized, Sized-append}
use pvr_dispatcharrai.InProgress.{
  SegmentInfo, SegmentInfo-SegmentT, StreamState, Client, Doubles, Status, ok,
}
use pvr_dispatcharrai.InProgress.Playlist.{PendingSegment, pending_segments}
use pvr_dispatcharrai.InProgress.Probe.{probe_segment_byte_size}
use pvr_dispatcharrai.InProgress.Probe.Batches.{IsComplete, probed_sizes-eq-map}
use pvr_dispatcharrai.InProgress.Refresh.{
  RefreshEnv, base_dir, append_segment, merge_segment, merge_segments, extend_stream,
  absorb_playlist, settle, refresh_manifest, refresh_cases,
}
use pvr_dispatcharrai.InProgress.Refresh.Layout.{IsValid, Extends, refresh_manifest-Refreshed}

-- `content` is the body that the server has for each segment URL.
module _ (content : Text → Text) where
  abbrev pub body : SegmentInfo → Text
  body g = content g.url

  -- The recording as far as it is known.
  abbrev pub recorded : StreamState → Text
  recorded s = stream_bytes body s.segments

  -- What is cached is the body of a segment of the stream.
  abbrev pub IsCached : StreamState → Type 0
  IsCached s =
      (s.cached_segment_byte_offset ≡ none)
      ⊎ ((g : SegmentInfo) × (locate g.byte_offset s.segments ≡ some g)
          × (s.cached_segment_byte_offset ≡ some g.byte_offset)
          × (s.cached_segment_bytes ≡ body g))

  -- The stream describes what the server has.
  pub record Served (s : StreamState) : Type 0 where
    pub valid : IsValid s
    pub sized : Sized body s.segments
    pub cached : IsCached s

  -- A probe that finds a size finds the length of the segment's body, and every thread finishes.
  abbrev pub HasHonestProbes : RefreshEnv → Type 0
  HasHonestProbes env =
      ((key url : Text)
        → ltb_ℤ (pos 0) (probe_segment_byte_size (env.probe key url)) ≡ true
        → length (content url) ≡ pos_part (probe_segment_byte_size (env.probe key url)))
      × IsComplete env.order

  module _ (D : Doubles) where
    merge_segment-Sized :
        (s : StreamState) (p : PendingSegment D) (size : ℤ)
        → (ltb_ℤ (pos 0) size ≡ true → length (content p.url) ≡ pos_part size)
        → Sized body s.segments
        → Sized body (merge_segment D s p size).segments
    unfolding merge_segment append_segment
    merge_segment-Sized s p size honest z = elim (Bool-cases (ltb_ℤ (pos 0) size)) [
      | inl sized ↦ rw (sized, merge_segment) (Sized-append body s.segments _ z (honest sized, tt))
      | inr failed ↦ rw (failed, merge_segment) z
    ]

    merge_segments-Sized :
        (probe : Text → ℤ) (s : StreamState) (ps : List (PendingSegment D))
        → ((url : Text)
            → ltb_ℤ (pos 0) (probe url) ≡ true
            → length (content url) ≡ pos_part (probe url))
        → Sized body s.segments
        → Sized body (merge_segments D s ps (map probe (map (λ p. p.url) ps))).segments
    unfolding merge_segments
    merge_segments-Sized probe s [] honest z = z
    merge_segments-Sized probe s (p ∷ ps) honest z =
        merge_segments-Sized probe (merge_segment D s p (probe p.url)) ps honest
          (merge_segment-Sized s p (probe p.url) (honest p.url) z)

    extend_stream-Sized :
        (dir : Text) (probe : Text → ℤ) (order : ℕ → ℕ → List ℕ) (text : Text) (s : StreamState)
        → ((url : Text)
            → ltb_ℤ (pos 0) (probe url) ≡ true
            → length (content url) ≡ pos_part (probe url))
        → IsComplete order
        → Sized body s.segments
        → Sized body (extend_stream D dir probe order text s).segments
    unfolding extend_stream
    extend_stream-Sized dir probe order text s honest complete z =
        let pending = pending_segments D dir (length s.segments) text in
        rw (probed_sizes-eq-map probe (map (λ p. p.url) pending) order complete)
          (merge_segments-Sized probe s pending honest z)

    settle-Sized :
        (st : Status) (env : RefreshEnv) (text key : Text) (c : Client)
        → HasHonestProbes env
        → Sized body c.stream.segments
        → Sized body (settle D st env text key c).1.stream.segments
    unfolding settle absorb_playlist
    settle-Sized ok env text key c (sizes, complete) z =
        extend_stream-Sized (base_dir c) (λ url. probe_segment_byte_size (env.probe key url))
          env.order text c.stream (sizes key) complete z
    settle-Sized _ env text key c honest z = z

    IsCached-Extends : (s t : StreamState) → Extends s t → IsCached s → IsCached t
    IsCached-Extends s t e (inl empty) = inl (e.same_cached ∙ empty)
    IsCached-Extends s t e (inr (g, found, offset, held)) = inr (
      g,
      ap (locate g.byte_offset) e.appended ∙ locate-append g.byte_offset s.segments e.added g found,
      e.same_cached ∙ offset,
      e.same_bytes ∙ held,
    )

    -- Where a probe reports a size only if it is that of the segment, and every probe thread
    -- finishes, a refresh keeps the stream a description of the server's recording: contiguous,
    -- with the true size of each segment, and with the cached bytes those of a segment.
    pub refresh_manifest-Served :
        (force : Bool) (env : RefreshEnv) (c : Client)
        → HasHonestProbes env
        → Served c.stream
        → Served (refresh_manifest D force env c).1.stream
    refresh_manifest-Served force env c honest served =
        let r = refresh_manifest-Refreshed D force env c in
        record {
          valid = r.valid served.valid;
          sized =
              refresh_cases D (λ q. Sized body q.1.stream.segments) force env c (λ st. served.sized)
                (λ st text key. settle-Sized st env text key c honest served.sized);
          cached = IsCached-Extends c.stream _ r.extends served.cached;
        }
