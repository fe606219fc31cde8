-- ===== src/InProgress.antt =====
-- The stream over a recording that is still being written: InProgressRecordingStreamState of
-- src/DispatcharrClient.h and the functions of src/DispatcharrClient.cpp on it.
pub mod Playlist
pub mod Probe
pub mod Refresh
pub mod Served
pub mod Session
pub mod Read
mod Tests
use pvr_dispatcharrai.Prelude.{
  ℕ, ◌+◌, Bool, true, false, if◌then◌else◌, Option, none, some, List, [], ◌∷◌, ℤ, pos, negsuc,
  eqb_ℤ,
}
use pvr_dispatcharrai.Prelude.Text.{Text}
use pvr_dispatcharrai.Stream.{SegmentT}

-- InProgressRecordingSegmentInfo.
pub record SegmentInfo : Type 0 where
  pub url : Text
  pub byte_offset : ℕ
  pub byte_size : ℕ
  pub time_offset_ms : ℤ

instance abbrev pub SegmentInfo-SegmentT : SegmentT SegmentInfo
SegmentInfo-SegmentT = record {
  byte_offset = λ s. s.byte_offset;
  byte_size = λ s. s.byte_size;
  time_offset_ms = λ s. s.time_offset_ms;
}

-- InProgressRecordingStreamState. A `steady_clock` reading is a number of nanoseconds, 0 before
-- the first; -1 as a position or an offset is `none`. `curl` is whether a handle is kept.
pub record StreamState : Type 0 where
  pub is_open : Bool
  pub recording_id : ℤ
  pub start_time : ℤ
  pub segments : List SegmentInfo
  pub total_bytes : ℕ
  pub total_duration_ms : ℤ
  pub position : ℕ
  pub finished : Bool
  pub last_manifest_fetch : ℕ
  pub last_seek_time : ℕ
  pub last_short_give_up_position : Option ℕ
  pub cached_segment_bytes : Text
  pub cached_segment_byte_offset : Option ℕ
  pub curl : Bool

-- The default member initialisers.
abbrev pub initial : StreamState
initial = record {
  is_open = false;
  recording_id = negsuc 0;
  start_time = pos 0;
  segments = [];
  total_bytes = 0;
  total_duration_ms = pos 0;
  position = 0;
  finished = false;
  last_manifest_fetch = 0;
  last_seek_time = 0;
  last_short_give_up_position = none;
  cached_segment_bytes = [];
  cached_segment_byte_offset = none;
  curl = false;
}

-- InProgressRecordingSegmentCache, and the map that holds one for each recording.
pub record SegmentCache : Type 0 where
  pub segments : List SegmentInfo
  pub total_bytes : ℕ
  pub total_duration_ms : ℤ

abbrev pub empty_cache : SegmentCache
empty_cache = record { segments = []; total_bytes = 0; total_duration_ms = pos 0 }

abbrev pub CacheMap : Type 0
CacheMap = List (ℤ × SegmentCache)

-- `find`, `operator[]` with an assignment, and `erase` of the map.
unfoldable pub lookup : ℤ → CacheMap → Option SegmentCache
lookup k [] = none
lookup k ((j, c) ∷ m) = if eqb_ℤ j k then some c else lookup k m

unfoldable pub insert : ℤ → SegmentCache → CacheMap → CacheMap
insert k c [] = (k, c) ∷ []
insert k c ((j, d) ∷ m) = if eqb_ℤ j k then (k, c) ∷ m else (j, d) ∷ insert k c m

unfoldable pub erase : ℤ → CacheMap → CacheMap
erase k [] = []
erase k ((j, d) ∷ m) = if eqb_ℤ j k then erase k m else (j, d) ∷ erase k m

-- The members of DispatcharrClient that this part reads and writes.
pub record Client : Type 0 where
  pub stream : StreamState
  pub cache : CacheMap
  pub api_key : Text
  pub base_url : Text

-- `double`, as far as durations use it: `std::stod`, `std::isfinite`, and
-- `static_cast<int64_t>(d * 1000 + 0.5)`.
pub record Doubles : Type 1 where
  pub Double : Type 0
  pub zero : Double
  pub stod : Text → Option Double
  pub is_finite : Double → Bool
  pub to_ms : Double → ℤ

-- What a call returns beside the new state: `true`, or `false` with the reason in `error`.
pub data Status : Type 0 where
  ok not_open no_handle transfer_failed exhausted no_segments : Status
  http_status : ℕ → Status
