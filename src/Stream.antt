-- ===== src/Stream.antt =====
-- What the two segmented streams of src/DispatcharrClient.cpp share: the fields of a segment, the
-- search for the segment at a position, `lseek`'s origins, and the catch-up budget.
pub mod Layout
pub mod Content
pub mod CatchUp
mod Tests
use pvr_dispatcharrai.Prelude.{
  ℕ, suc, ◌+◌, ◌-◌, ◌*◌, ◌/◌, ◌%◌, ◌^◌, Bool, ltb, leb, ◌&&◌, if◌then◌else◌, Option, none, some,
  List, [], ◌∷◌, ℤ, pos, pos_part, ◌+ℤ◌, ◌-ℤ◌, ltb_ℤ, sub_ℕ, length, get_elem?, min, max,
}

-- What the template parameter `SegmentT` is asked for, and the byte range that the reads use.
pub record SegmentT (A : Type 0) : Type 0 where
  pub byte_offset : A → ℕ
  pub byte_size : A → ℕ
  pub time_offset_ms : A → ℤ

-- The `whence` of a seek; `other` is any value that the switches do not name.
pub data Whence : Type 0 where
  seek_set seek_cur seek_end other : Whence

-- The switch of every seek: where `position` leads from the current position and the end.
unfoldable pub seek_target : Whence → ℤ → ℕ → ℕ → Option ℤ
seek_target seek_set position current total = some position
seek_target seek_cur position current total = some (pos current +ℤ position)
seek_target seek_end position current total = some (pos total +ℤ position)
seek_target other position current total = none

abbrev pub k_segment_duration_sample_count : ℕ
k_segment_duration_sample_count = 5

abbrev pub k_min_segment_duration_ms : ℕ
k_min_segment_duration_ms = 1500

module _ {A : Type 0} ⦃seg : SegmentT A⦄ where
  open seg use {byte_offset, byte_size, time_offset_ms}

  -- The loop of the reads: the first segment whose bytes include the position.
  unfoldable pub locate : ℕ → List A → Option A
  locate p [] = none
  locate p (s ∷ ss) =
      if leb (byte_offset s) p && ltb p (byte_offset s + byte_size s) then some s else locate p ss

  -- The average that EstimateSegmentDurationMs takes, from the oldest sampled segment.
  unfoldable pub average_ms : ℤ → ℕ → Option A → ℕ
  average_ms total count none = 6000
  average_ms total count (some s) =
      let sum_ms = total -ℤ time_offset_ms s in
      if ltb_ℤ (pos 0) sum_ms then pos_part sum_ms / count else 6000

  -- EstimateSegmentDurationMs.
  unfoldable pub estimate_segment_duration_ms : ℤ → List A → ℕ
  unfolding average_ms
  estimate_segment_duration_ms total segments =
      let sample_count = min k_segment_duration_sample_count (length segments) in
      let avg =
        if ltb 0 sample_count
        then average_ms total sample_count (get_elem? segments (length segments - sample_count))
        else 6000 in
      max avg k_min_segment_duration_ms

-- `static_cast<int>`, which keeps the low 32 bits.
abbrev pub to_int : ℕ → ℤ
to_int n = let low = n % 2 ^ 32 in if ltb low (2 ^ 31) then pos low else sub_ℕ low (2 ^ 32)

-- ComputeCatchUpAttempts.
unfoldable pub compute_catch_up_attempts : Bool → ℕ → ℕ → ℤ
unfolding ◌+ℤ◌
compute_catch_up_attempts likely_seek_probe estimate_ms sleep_ms =
    if likely_seek_probe then pos 1 else to_int (estimate_ms * 3 / sleep_ms) +ℤ pos 1
