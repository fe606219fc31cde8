-- ===== src/Live/Session/Trim.antt =====
-- The trim of OpenLiveTimeshiftStream: the last segments, rebased to byte 0.
use pvr_dispatcharrai.Prelude.{
  ℕ, zero, suc, ◌+◌, ◌-◌, ◌≤◌, ◌<◌, ◌≡◌, refl, sym, ap, ◌∙◌, subst, if_split, ltb, Option, none,
  some, List, [], ◌∷◌, map, ℤ, length, drop, get_elem?, arith, length-drop,
}
use pvr_dispatcharrai.Prelude.Text.{Text}
use pvr_dispatcharrai.Stream.Layout.{Contiguous}
use pvr_dispatcharrai.Stream.Content.{Sized}
use pvr_dispatcharrai.Live.{LiveSegment, LiveSegment-SegmentT, LiveStream}
use pvr_dispatcharrai.Live.Manifest.Layout.{IsValidLive, LiveServed, file}
use pvr_dispatcharrai.Live.Session.{
  rebased, rebase_from, trim_to_live_edge, start_position, offset_or, k_live_edge_margin_segments,
}

get_elem?_total :
    (xs : List LiveSegment) (k : ℕ) → k < length xs → (f : LiveSegment) × (get_elem? xs k ≡ some f)
get_elem?_total [] k h = absurd (omega arith)
get_elem?_total (x ∷ xs) zero h = (x, refl)
get_elem?_total (x ∷ xs) (suc k) h = get_elem?_total xs k (omega arith)

-- What is left of a contiguous space from one of its segments on.
Contiguous-drop :
    (b e k : ℕ) (xs : List LiveSegment) (f : LiveSegment)
    → Contiguous b xs e
    → get_elem? xs k ≡ some f
    → (b ≤ f.byte_offset) × Contiguous f.byte_offset (drop k xs) e
Contiguous-drop b e k [] f h found = cc
Contiguous-drop b e zero (x ∷ xs) f h found =
    let same : x.byte_offset ≡ f.byte_offset =
      ground (arith, ap (λ (g : LiveSegment). g.byte_offset) {x = x} {y = f}) in
    (omega (arith, same, h.0), subst (λ o. Contiguous o (x ∷ xs) e) (sym h.0 ∙ same) h)
Contiguous-drop b e (suc k) (x ∷ xs) f h found =
    let (low, rest) = Contiguous-drop (b + x.byte_size) e k xs f h.2 found in (omega arith, rest)

Contiguous-rebased :
    (b e base : ℕ) (t : ℤ) (xs : List LiveSegment)
    → base ≤ b
    → Contiguous b xs e
    → Contiguous (b - base) (map (rebased base t) xs) (e - base)
Contiguous-rebased b e base t [] low h = ap (λ k. k - base) h
Contiguous-rebased b e base t (x ∷ xs) low h = (
  ap (λ k. k - base) h.0,
  h.1,
  subst (λ k. Contiguous k (map (rebased base t) xs) (e - base)) {x = b + x.byte_size - base}
      {y = b - base + x.byte_size} (omega arith)
      (Contiguous-rebased (b + x.byte_size) e base t xs (omega arith) h.2),
)

length-map-rebased :
    (base : ℕ) (t : ℤ) (xs : List LiveSegment) → length (map (rebased base t) xs) ≡ length xs
length-map-rebased base t [] = refl
length-map-rebased base t (x ∷ xs) = ap suc (length-map-rebased base t xs)

-- The fields that the trim leaves alone.
pub record Trimmed (s t : LiveStream) : Type 0 where
  pub few : length t.segments ≤ k_live_edge_margin_segments
  pub same_open : t.is_open ≡ s.is_open
  pub same_viewer : t.viewer_id ≡ s.viewer_id
  pub same_channel : t.channel_uuid ≡ s.channel_uuid
  pub same_fatal : t.fatal ≡ s.fatal
  pub valid : IsValidLive s → IsValidLive t

rebase_from-Trimmed :
    (s : LiveStream) (k : ℕ) (f : LiveSegment)
    → get_elem? s.segments k ≡ some f
    → length s.segments - k ≤ k_live_edge_margin_segments
    → Trimmed s (rebase_from k (some f) s)
unfolding rebase_from
rebase_from-Trimmed s k f found few = record {
  few = omega (
    arith,
    length-map-rebased f.byte_offset f.time_offset_ms (drop k s.segments),
    length-drop k s.segments,
  );
  same_open = refl;
  same_viewer = refl;
  same_channel = refl;
  same_fatal = refl;
  valid = λ v.
      let (low, rest) = Contiguous-drop 0 s.total_bytes k s.segments f v found in
      subst
        (λ o.
          Contiguous o (map (rebased f.byte_offset f.time_offset_ms) (drop k s.segments))
            (s.total_bytes - f.byte_offset))
        {x = f.byte_offset - f.byte_offset} {y = 0} (omega arith)
        (Contiguous-rebased f.byte_offset s.total_bytes f.byte_offset f.time_offset_ms
          (drop k s.segments) (omega arith) rest);
}

pub trim_to_live_edge-Trimmed : (s : LiveStream) → Trimmed s (trim_to_live_edge s)
unfolding trim_to_live_edge
trim_to_live_edge-Trimmed s =
    let k = length s.segments - k_live_edge_margin_segments in
    if_split (Trimmed s) (ltb k_live_edge_margin_segments (length s.segments))
      {x = rebase_from k (get_elem? s.segments k) s} {y = s}
      (λ many.
        let (f, found) = get_elem?_total s.segments k (ground arith) in
        subst (λ o. Trimmed s (rebase_from k o s)) (sym found)
          (rebase_from-Trimmed s k f found (omega arith)))
      (λ few. record {
        few = ground arith;
        same_open = refl;
        same_viewer = refl;
        same_channel = refl;
        same_fatal = refl;
        valid = λ v. v;
      })

module _ (content : Text → Text) where
  Sized-drop :
      (k : ℕ) (xs : List LiveSegment) → Sized (file content) xs → Sized (file content) (drop k xs)
  Sized-drop zero xs z = z
  Sized-drop (suc k) [] z = z
  Sized-drop (suc k) (x ∷ xs) z = Sized-drop k xs z.1

  Sized-rebased :
      (base : ℕ) (t : ℤ) (xs : List LiveSegment)
      → Sized (file content) xs
      → Sized (file content) (map (rebased base t) xs)
  Sized-rebased base t [] z = z
  Sized-rebased base t (x ∷ xs) z = (z.0, Sized-rebased base t xs z.1)

  rebase_from-Sized :
      (k : ℕ) (o : Option LiveSegment) (s : LiveStream)
      → Sized (file content) s.segments
      → Sized (file content) (rebase_from k o s).segments
  unfolding rebase_from
  rebase_from-Sized k none s z = z
  rebase_from-Sized k (some f) s z =
      Sized-rebased f.byte_offset f.time_offset_ms (drop k s.segments) (Sized-drop k s.segments z)

  pub trim_to_live_edge-LiveServed :
      (s : LiveStream) → LiveServed content s → LiveServed content (trim_to_live_edge s)
  unfolding trim_to_live_edge
  trim_to_live_edge-LiveServed s h = record {
    valid = (trim_to_live_edge-Trimmed s).valid h.valid;
    sized =
        let k = length s.segments - k_live_edge_margin_segments in
        if_split (λ (t : LiveStream). Sized (file content) t.segments)
          (ltb k_live_edge_margin_segments (length s.segments))
          {x = rebase_from k (get_elem? s.segments k) s} {y = s}
          (λ many. rebase_from-Sized k (get_elem? s.segments k) s h.sized) (λ few. h.sized);
  }

offset_or_first :
    (e : ℕ) (xs : List LiveSegment) → Contiguous 0 xs e → offset_or (get_elem? xs 0) e ≡ 0
offset_or_first e [] h = sym h
offset_or_first e (x ∷ xs) h = h.0

-- Playback starts at the first byte that is kept.
pub start_position_zero :
    (s : LiveStream)
    → IsValidLive s
    → length s.segments ≤ k_live_edge_margin_segments
    → start_position s ≡ 0
unfolding start_position
start_position_zero s v few =
    if_split (λ (i : ℕ). offset_or (get_elem? s.segments i) s.total_bytes ≡ 0)
      (ltb k_live_edge_margin_segments (length s.segments))
      {x = length s.segments - k_live_edge_margin_segments} {y = 0} (λ many. absurd (ground arith))
      (λ e. offset_or_first s.total_bytes s.segments v)
