-- ===== src/InProgress/Refresh/Idempotent.antt =====
-- A second look at an unchanged playlist.
use mathlib.Core.List.{map-append}
use pvr_dispatcharrai.Prelude.{
  ℕ, ◌+◌, ◌-◌, ◌≤◌, ◌<◌, ◌≡◌, refl, sym, ap, ◌∙◌, inl, inr, true, false, Bool-cases, List, [], ◌∷◌,
  ◌++◌, drop, drop_all, drop-append, length-drop, append_assoc, append-nil, map, length,
  length-append, ℤ, pos, pos_part, ltb_ℤ, arith,
}
use pvr_dispatcharrai.Prelude.Text.{Text}
use pvr_dispatcharrai.InProgress.{SegmentInfo, StreamState, Doubles}
use pvr_dispatcharrai.InProgress.Playlist.{PendingSegment, pending_segments}
use pvr_dispatcharrai.InProgress.Playlist.Known.{pending_segments-drop}
use pvr_dispatcharrai.InProgress.Probe.Batches.{IsComplete, probed_sizes-eq-map}
use pvr_dispatcharrai.InProgress.Refresh.{
  append_segment, merge_segment, merge_segments, extend_stream,
}

module _ (D : Doubles) where
  -- `extend_stream` with the threads' schedule taken out.
  extend_stream-eq :
      (dir : Text) (probe : Text → ℤ) (order : ℕ → ℕ → List ℕ) (text : Text) (s : StreamState)
      → IsComplete order
      → let pending = pending_segments D dir (length s.segments) text in
        extend_stream D dir probe order text s
        ≡ merge_segments D s pending (map probe (map (λ p. p.url) pending))
  unfolding extend_stream
  extend_stream-eq dir probe order text s complete =
      let pending = pending_segments D dir (length s.segments) text in
      ap (merge_segments D s pending)
        (probed_sizes-eq-map probe (map (λ p. p.url) pending) order complete)

  length-merge_segment :
      (s : StreamState) (p : PendingSegment D) (size : ℤ)
      → ltb_ℤ (pos 0) size ≡ true
      → length (merge_segment D s p size).segments ≡ length s.segments + 1
  unfolding merge_segment append_segment
  length-merge_segment s p size h = rw (h, merge_segment) (length-append s.segments _)

  -- With every probe a success, all that was pending is recorded.
  length-merge_segments :
      (probe : Text → ℤ) (s : StreamState) (ps : List (PendingSegment D))
      → ((url : Text) → ltb_ℤ (pos 0) (probe url) ≡ true)
      → length (merge_segments D s ps (map probe (map (λ p. p.url) ps))).segments
        ≡ length s.segments + length ps
  unfolding merge_segments
  length-merge_segments probe s [] good = omega arith
  length-merge_segments probe s (p ∷ ps) good = omega (
    arith,
    length-merge_segments probe (merge_segment D s p (probe p.url)) ps good,
    length-merge_segment s p (probe p.url) (good p.url),
  )

  merge_none : (s : StreamState) → merge_segments D s [] [] ≡ s
  unfolding merge_segments
  merge_none s = refl

  nothing_pending :
      (dir : Text) (known : ℕ) (text : Text)
      → length (pending_segments D dir 0 text) ≤ known
      → pending_segments D dir known text ≡ []
  nothing_pending dir known text h =
      pending_segments-drop D dir known text ∙ drop_all known (pending_segments D dir 0 text) h

  -- If every probe succeeds and its thread finishes, a refresh takes in the whole playlist, and
  -- another one with the same playlist changes nothing.
  pub extend_stream_twice :
      (dir : Text) (probe : Text → ℤ) (order : ℕ → ℕ → List ℕ) (text : Text) (s : StreamState)
      → IsComplete order
      → ((url : Text) → ltb_ℤ (pos 0) (probe url) ≡ true)
      → let once = extend_stream D dir probe order text s in
        (length (pending_segments D dir 0 text) ≤ length once.segments)
        × (extend_stream D dir probe order text once ≡ once)
  extend_stream_twice dir probe order text s complete good = (all_in, again)
    where
      once : StreamState
      once = extend_stream D dir probe order text s

      all_in : length (pending_segments D dir 0 text) ≤ length once.segments
      all_in =
          let known = length s.segments in
          let pending = pending_segments D dir known text in
          omega (
            arith,
            ap (λ (t : StreamState). length t.segments)
                (extend_stream-eq dir probe order text s complete),
            length-merge_segments probe s pending good,
            ap length (pending_segments-drop D dir known text),
            length-drop known (pending_segments D dir 0 text),
          )

      again : extend_stream D dir probe order text once ≡ once
      again =
          extend_stream-eq dir probe order text once complete
          ∙ ap (λ ps. merge_segments D once ps (map probe (map (λ p. p.url) ps)))
              (nothing_pending dir (length once.segments) text all_in)
          ∙ merge_none once

  -- If fewer segments are recorded than the playlist lists, as after a failed probe, its last
  -- segment is pending again, recorded or not.
  last_pending_again :
      (dir : Text) (known : ℕ) (text : Text) (before : List (PendingSegment D))
      (last : PendingSegment D)
      → pending_segments D dir 0 text ≡ before ++ last ∷ []
      → known < length (pending_segments D dir 0 text)
      → pending_segments D dir known text ≡ drop known before ++ last ∷ []
  last_pending_again dir known text before last e h =
      let few : known - length before ≡ 0 =
        omega (arith, ap length e, length-append before (last ∷ [])) in
      pending_segments-drop D dir known text
      ∙ ap (drop known) e
      ∙ drop-append known before (last ∷ [])
      ∙ ap (λ k. drop known before ++ drop k (last ∷ [])) few

  abbrev pub urls : StreamState → List Text
  urls s = map (λ (g : SegmentInfo). g.url) s.segments

  urls-append_segment :
      (s : StreamState) (p : PendingSegment D) (n : ℕ)
      → urls (append_segment D s p n) ≡ urls s ++ p.url ∷ []
  unfolding append_segment
  urls-append_segment s p n = map-append (λ (g : SegmentInfo). g.url) s.segments _

  urls-merge_segment :
      (s : StreamState) (p : PendingSegment D) (size : ℤ)
      → ltb_ℤ (pos 0) size ≡ true
      → urls (merge_segment D s p size) ≡ urls s ++ p.url ∷ []
  unfolding merge_segment
  urls-merge_segment s p size h = rw (h, merge_segment) (urls-append_segment s p (pos_part size))

  urls-unsized :
      (s : StreamState) (p : PendingSegment D) (size : ℤ)
      → ltb_ℤ (pos 0) size ≡ false
      → urls (merge_segment D s p size) ≡ urls s
  unfolding merge_segment
  urls-unsized s p size h = rw (h, merge_segment)

  -- What a merge adds ends with its last segment, if that can be sized.
  merge_ends_with :
      (probe : Text → ℤ) (s : StreamState) (ps : List (PendingSegment D)) (last : PendingSegment D)
      → ltb_ℤ (pos 0) (probe last.url) ≡ true
      → let pending = ps ++ last ∷ [] in
        (added : List Text) × (urls
            (merge_segments D s pending (map probe (map (λ p. p.url) pending)))
          ≡ urls s ++ added ++ last.url ∷ [])
  unfolding merge_segments
  merge_ends_with probe s [] last good = (
    [],
    urls-merge_segment s last (probe last.url) good
        ∙ ap (λ l. l ++ last.url ∷ []) (sym (append-nil (urls s))),
  )
  merge_ends_with probe s (p ∷ ps) last good =
      let (added, e) = merge_ends_with probe (merge_segment D s p (probe p.url)) ps last good in
      elim (Bool-cases (ltb_ℤ (pos 0) (probe p.url))) [
        | inl sized ↦ (
          p.url ∷ added,
          e
              ∙ ap (λ l. l ++ added ++ last.url ∷ []) (urls-merge_segment s p (probe p.url) sized)
              ∙ ap (λ l. l ++ last.url ∷ []) (append_assoc (urls s) (p.url ∷ []) added),
        )
        | inr failed ↦ (
          added,
          e ∙ ap (λ l. l ++ added ++ last.url ∷ []) (urls-unsized s p (probe p.url) failed),
        )
      ]

  -- After a probe has failed a segment can be recorded twice: where the stream ends with the last
  -- segment of the playlist, and yet fewer segments are recorded than the playlist lists, the next
  -- refresh with the same playlist appends that segment once more if it can be sized.
  pub failed_probe_duplicates :
      (dir : Text) (probe : Text → ℤ) (order : ℕ → ℕ → List ℕ) (text : Text) (s : StreamState)
      (before : List (PendingSegment D)) (last : PendingSegment D) (older : List Text)
      → IsComplete order
      → pending_segments D dir 0 text ≡ before ++ last ∷ []
      → length s.segments < length (pending_segments D dir 0 text)
      → urls s ≡ older ++ last.url ∷ []
      → ltb_ℤ (pos 0) (probe last.url) ≡ true
      → (added : List Text) × (urls (extend_stream D dir probe order text s)
          ≡ (older ++ last.url ∷ []) ++ added ++ last.url ∷ [])
  failed_probe_duplicates dir probe order text s before last older complete lists few ends good =
      let known = length s.segments in
      let again = last_pending_again dir known text before last lists few in
      let (added, e) = merge_ends_with probe s (drop known before) last good in
      (
        added,
        ap urls (extend_stream-eq dir probe order text s complete)
            ∙ ap (λ ps. urls (merge_segments D s ps (map probe (map (λ p. p.url) ps)))) again
            ∙ e
            ∙ ap (λ l. l ++ added ++ last.url ∷ []) ends,
      )
