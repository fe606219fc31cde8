-- ===== src/InProgress/Playlist.antt =====
-- The playlist half of RefreshInProgressRecordingManifest: the loop over the lines of the m3u8
-- text, which lists the segments past those already known.
pub mod Known
use pvr_dispatcharrai.Prelude.{
  ℕ, suc, ◌+◌, ◌≤◌, Bool, true, false, ◌==◌, ◌&&◌, ◌||◌, leb, not, if◌then◌else◌, Option, none,
  some, List, [], ◌∷◌, ◌++◌, drop, take,
}
use pvr_dispatcharrai.Prelude.Text.{Text, codes, is_empty, starts_with, find}
use pvr_dispatcharrai.InProgress.{Doubles}

add_to_first : ℕ → List Text → List Text
add_to_first c [] = (c ∷ []) ∷ []
add_to_first c (l ∷ ls) = (c ∷ l) ∷ ls

-- The pieces between line feeds, the last one also where it is empty: what `pos` walks over.
unfoldable pub split_lines : Text → List Text
unfolding add_to_first
split_lines [] = [] ∷ []
split_lines (c ∷ cs) =
    let rest = split_lines cs in if c == 10 then [] ∷ rest else add_to_first c rest

-- `if (!line.empty() && line.back() == '\r') line.pop_back();`
unfoldable pub pop_cr : Text → Text
pop_cr [] = []
pop_cr (c ∷ []) = if c == 13 then [] else c ∷ []
pop_cr (c ∷ d ∷ cs) = c ∷ pop_cr (d ∷ cs)

abbrev pub is_uri : Text → Bool
is_uri [] = false
is_uri (c ∷ cs) = not (c == b'#')

-- A URI line that is not absolute is taken relative to the playlist's directory.
unfoldable pub segment_url : Text → Text → Text
unfolding starts_with
segment_url base_dir line =
    if starts_with line (codes "http://") || starts_with line (codes "https://")
    then line
    else base_dir ++ line

module _ (D : Doubles) where
  open D use {Double, zero, stod, is_finite}

  pub record PendingSegment : Type 0 where
    pub url : Text
    pub duration_sec : Double

  finite_or_zero : Option Double → Double
  finite_or_zero none = zero
  finite_or_zero (some d) = if is_finite d then d else zero

  -- The duration behind `#EXTINF:`, up to a comma; 0 if it is no finite number.
  unfoldable pub extinf_duration : Text → Double
  unfolding find finite_or_zero
  extinf_duration line =
      let dur_str = drop 8 line in
      finite_or_zero (
        stod (elim (find dur_str (codes ",")) [ none ↦ dur_str | some comma ↦ take comma dur_str ]))

  -- The loop: `index` counts the URI lines so far, `duration` is `pendingDurationSec`.
  unfoldable pub scan_lines : Text → ℕ → ℕ → Double → List Text → List PendingSegment
  unfolding starts_with extinf_duration
  scan_lines base_dir known index duration [] = []
  scan_lines base_dir known index duration (raw ∷ lines) =
      let line = pop_cr raw in
      let after_extinf = scan_lines base_dir known index (extinf_duration line) lines in
      let after_uri = scan_lines base_dir known (index + 1) zero lines in
      let skipped = scan_lines base_dir known index duration lines in
      if starts_with line (codes "#EXTINF:")
      then after_extinf
      else if is_uri line
      then (if leb known index
          then record { url = segment_url base_dir line; duration_sec = duration } ∷ after_uri
          else after_uri)
      else skipped

  -- The segments of a playlist past the first `known`.
  unfoldable pub pending_segments : Text → ℕ → Text → List PendingSegment
  unfolding scan_lines split_lines
  pending_segments base_dir known text = scan_lines base_dir known 0 zero (split_lines text)
