-- ===== src/InProgress/Refresh/Layout.antt =====
-- A refresh only appends, and keeps the address space contiguous.
use pvr_dispatcharrai.Prelude.{
  ℕ, ◌+◌, ◌≤◌, ◌<◌, ◌≡◌, refl, sym, ap, ◌∙◌, Bool, List, [], ◌∷◌, ◌++◌, append-nil, append_assoc, ℤ,
  pos, pos_part, ltb_ℤ, Bool-cases, inl, inr, arith, map, length,
}
use pvr_dispatcharrai.Prelude.Text.{Text}
use pvr_dispatcharrai.Stream.Layout.{Contiguous, Contiguous-append}
use pvr_dispatcharrai.InProgress.{
  SegmentInfo-SegmentT, SegmentInfo, StreamState, Client, Doubles, Status, ok,
}
use pvr_dispatcharrai.InProgress.Playlist.{PendingSegment, pending_segments}
use pvr_dispatcharrai.InProgress.Probe.{probed_sizes, probe_segment_byte_size}
use pvr_dispatcharrai.InProgress.Refresh.{
  RefreshEnv, base_dir, append_segment, settle, merge_segment, merge_segments, extend_stream,
  absorb_playlist, refresh_manifest, refresh_cases,
}

-- The segments fill the addresses from 0 up to `total_bytes`.
abbrev pub IsValid : StreamState → Type 0
IsValid s = Contiguous 0 s.segments s.total_bytes

-- `t` is `s` with segments appended, and nothing that a reader holds on to changed.
pub record Extends (s t : StreamState) : Type 0 where
  pub added : List SegmentInfo
  pub appended : t.segments ≡ s.segments ++ added
  pub quiet :
      added ≡ [] → (t.total_bytes ≡ s.total_bytes) × (t.total_duration_ms ≡ s.total_duration_ms)
  pub grows : s.total_bytes ≤ t.total_bytes
  pub same_position : t.position ≡ s.position
  pub same_open : t.is_open ≡ s.is_open
  pub same_id : t.recording_id ≡ s.recording_id
  pub same_cached : t.cached_segment_byte_offset ≡ s.cached_segment_byte_offset
  pub same_bytes : t.cached_segment_bytes ≡ s.cached_segment_bytes

append-eq-nil {ℓ} : {A : Type ℓ} (xs ys : List A) → xs ++ ys ≡ [] → (xs ≡ []) × (ys ≡ [])
append-eq-nil [] ys e = (refl, e)
append-eq-nil (x ∷ xs) ys e = cc

pub Extends-refl : (s : StreamState) → Extends s s
Extends-refl s = record {
  added = [];
  appended = sym (append-nil s.segments);
  quiet = λ e. (refl, refl);
  grows = omega arith;
  same_position = refl;
  same_open = refl;
  same_id = refl;
  same_cached = refl;
  same_bytes = refl;
}

pub Extends-trans : {s t u : StreamState} → Extends s t → Extends t u → Extends s u
Extends-trans {s} {t} {u} h k = record {
  added = h.added ++ k.added;
  appended =
      k.appended ∙ ap (λ l. l ++ k.added) h.appended ∙ append_assoc s.segments h.added k.added;
  quiet = λ e.
      let (left, right) = append-eq-nil h.added k.added e in
      ((k.quiet right).0 ∙ (h.quiet left).0, (k.quiet right).1 ∙ (h.quiet left).1);
  grows = omega arith;
  same_position = k.same_position ∙ h.same_position;
  same_open = k.same_open ∙ h.same_open;
  same_id = k.same_id ∙ h.same_id;
  same_cached = k.same_cached ∙ h.same_cached;
  same_bytes = k.same_bytes ∙ h.same_bytes;
}

module _ (D : Doubles) where
  append_segment-IsValid :
      (s : StreamState) (p : PendingSegment D) (n : ℕ)
      → 0 < n
      → IsValid s
      → IsValid (append_segment D s p n)
  unfolding append_segment
  append_segment-IsValid s p n h v =
      Contiguous-append 0 s.total_bytes (s.total_bytes + n) s.segments _ v (refl, h, refl)

  append_segment-Extends :
      (s : StreamState) (p : PendingSegment D) (n : ℕ) → Extends s (append_segment D s p n)
  unfolding append_segment
  append_segment-Extends s p n = record {
    added = _;
    appended = refl;
    quiet = λ e. cc;
    grows = omega arith;
    same_position = refl;
    same_open = refl;
    same_id = refl;
    same_cached = refl;
    same_bytes = refl;
  }

  merge_segment-IsValid :
      (s : StreamState) (p : PendingSegment D) (size : ℤ)
      → IsValid s
      → IsValid (merge_segment D s p size)
  unfolding merge_segment
  merge_segment-IsValid s p size v = elim (Bool-cases (ltb_ℤ (pos 0) size)) [
    | inl sized ↦
        rw (sized, merge_segment) (append_segment-IsValid s p (pos_part size) (ground arith) v)
    | inr failed ↦ rw (failed, merge_segment) v
  ]

  merge_segment-Extends :
      (s : StreamState) (p : PendingSegment D) (size : ℤ) → Extends s (merge_segment D s p size)
  unfolding merge_segment
  merge_segment-Extends s p size = elim (Bool-cases (ltb_ℤ (pos 0) size)) [
    | inl sized ↦ rw (sized, merge_segment) (append_segment-Extends s p (pos_part size))
    | inr failed ↦ rw (failed, merge_segment) (Extends-refl s)
  ]

  pub merge_segments-IsValid :
      (s : StreamState) (ps : List (PendingSegment D)) (sizes : List ℤ)
      → IsValid s
      → IsValid (merge_segments D s ps sizes)
  unfolding merge_segments
  merge_segments-IsValid s [] sizes v = v
  merge_segments-IsValid s (p ∷ ps) [] v = v
  merge_segments-IsValid s (p ∷ ps) (n ∷ sizes) v =
      merge_segments-IsValid (merge_segment D s p n) ps sizes (merge_segment-IsValid s p n v)

  pub merge_segments-Extends :
      (s : StreamState) (ps : List (PendingSegment D)) (sizes : List ℤ)
      → Extends s (merge_segments D s ps sizes)
  unfolding merge_segments
  merge_segments-Extends s [] sizes = Extends-refl s
  merge_segments-Extends s (p ∷ ps) [] = Extends-refl s
  merge_segments-Extends s (p ∷ ps) (n ∷ sizes) =
      Extends-trans (merge_segment-Extends s p n)
        (merge_segments-Extends (merge_segment D s p n) ps sizes)

  pub extend_stream-IsValid :
      (dir : Text) (probe : Text → ℤ) (order : ℕ → ℕ → List ℕ) (text : Text) (s : StreamState)
      → IsValid s
      → IsValid (extend_stream D dir probe order text s)
  unfolding extend_stream
  extend_stream-IsValid dir probe order text s v =
      let pending = pending_segments D dir (length s.segments) text in
      let sizes = probed_sizes probe (map (λ p. p.url) pending) order in
      merge_segments-IsValid s pending sizes v

  pub extend_stream-Extends :
      (dir : Text) (probe : Text → ℤ) (order : ℕ → ℕ → List ℕ) (text : Text) (s : StreamState)
      → Extends s (extend_stream D dir probe order text s)
  unfolding extend_stream
  extend_stream-Extends dir probe order text s =
      let pending = pending_segments D dir (length s.segments) text in
      let sizes = probed_sizes probe (map (λ p. p.url) pending) order in
      merge_segments-Extends s pending sizes

  -- What a reader relies on between two moments of a client.
  pub record Refreshed (c d : Client) : Type 0 where
    pub extends : Extends c.stream d.stream
    pub valid : IsValid c.stream → IsValid d.stream

  pub absorb_playlist-Refreshed :
      (env : RefreshEnv) (text key : Text) (c : Client)
      → Refreshed c (absorb_playlist D env text key c)
  unfolding absorb_playlist
  absorb_playlist-Refreshed env text key c =
      let probe = λ (url : Text). probe_segment_byte_size (env.probe key url) in
      let e = extend_stream-Extends (base_dir c) probe env.order text c.stream in
      record {
        extends = record {
          added = e.added;
          appended = e.appended;
          quiet = e.quiet;
          grows = e.grows;
          same_position = e.same_position;
          same_open = e.same_open;
          same_id = e.same_id;
          same_cached = e.same_cached;
          same_bytes = e.same_bytes;
        };
        valid = extend_stream-IsValid (base_dir c) probe env.order text c.stream;
      }

  keep_Refreshed : (c : Client) (key : Text) → Refreshed c (record c { api_key = key })
  keep_Refreshed c key = record { extends = Extends-refl c.stream; valid = λ v. v }

  settled :
      (st : Status) (env : RefreshEnv) (text key : Text) (c : Client)
      → Refreshed c (settle D st env text key c).1
  unfolding settle
  settled ok env text key c = absorb_playlist-Refreshed env text key c
  settled _ env text key c = keep_Refreshed c key

  pub refresh_manifest-Refreshed :
      (force : Bool) (env : RefreshEnv) (c : Client)
      → Refreshed c (refresh_manifest D force env c).1
  refresh_manifest-Refreshed force env c =
      refresh_cases D (λ r. Refreshed c r.1) force env c (λ st. keep_Refreshed c c.api_key)
        (λ st text key. settled st env text key c)

  -- Whatever the server answers, a refresh of a stream whose segments fill its addresses from byte
  -- 0 leaves the recorded segments where they are and appends the new ones behind them without gap
  -- or overlap; it moves neither the read position nor the cached segment.
  pub refresh_manifest_lem :
      (force : Bool) (env : RefreshEnv) (c : Client)
      → IsValid c.stream
      → let d = (refresh_manifest D force env c).1 in
        (added : List SegmentInfo) × (d.stream.segments ≡ c.stream.segments ++ added)
        × IsValid d.stream
        × (c.stream.total_bytes ≤ d.stream.total_bytes)
        × (d.stream.position ≡ c.stream.position)
        × (d.stream.cached_segment_byte_offset ≡ c.stream.cached_segment_byte_offset)
        × (d.stream.cached_segment_bytes ≡ c.stream.cached_segment_bytes)
  refresh_manifest_lem force env c valid =
      let r = refresh_manifest-Refreshed force env c in
      let e = r.extends in
      (e.added, e.appended, r.valid valid, e.grows, e.same_position, e.same_cached, e.same_bytes)
