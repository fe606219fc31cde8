-- ===== src/InProgress/Session.antt =====
-- Opening, seeking, asking and closing: OpenInProgressRecordingStream,
-- SeekInProgressRecordingStream, the three getters and CloseInProgressRecordingStream.
pub mod Seek
pub mod Open
use pvr_dispatcharrai.Prelude.{
  ℕ, zero, suc, ◌+◌, ◌-◌, Bool, true, false, ltb, not, if◌then◌else◌, Option, none, some, List, [],
  ◌∷◌, ℤ, pos, negsuc, pos_part, ltb_ℤ, min,
}
use pvr_dispatcharrai.Stream.{Whence, seek_end, seek_target}
use pvr_dispatcharrai.InProgress.{
  SegmentInfo, StreamState, initial, SegmentCache, lookup, Client, Doubles, Status, ok, no_segments,
}
use pvr_dispatcharrai.InProgress.Refresh.{RefreshEnv, refresh_manifest}

-- CloseInProgressRecordingStream.
unfoldable pub close_stream : Client → Client
close_stream c = record c { stream = initial }

abbrev pub k_cold_start_max_attempts : ℕ
k_cold_start_max_attempts = 90

-- How the cold-start loop ends: a failed refresh returns from inside it.
pub data ColdStart : Type 0 where
  returned : Status → ColdStart
  have_segment no_segment : ColdStart

-- The stream fields that an open sets before its first refresh, the cached segments included.
unfoldable pub seeded : ℤ → ℤ → Option SegmentCache → StreamState
seeded id start none = record initial { is_open = true; recording_id = id; start_time = start }
seeded id start (some e) = record initial {
  is_open = true;
  recording_id = id;
  start_time = start;
  segments = e.segments;
  total_bytes = e.total_bytes;
  total_duration_ms = e.total_duration_ms;
}

abbrev pub is_nil {ℓ} : {A : Type ℓ} → List A → Bool
is_nil [] = true
is_nil (x ∷ xs) = false

-- The byte size of `segments.back()`, or 0.
unfoldable pub live_backoff_bytes : List SegmentInfo → ℕ
live_backoff_bytes [] = 0
live_backoff_bytes (s ∷ []) = s.byte_size
live_backoff_bytes (s ∷ t ∷ ss) = live_backoff_bytes (t ∷ ss)

-- `std::max<int64_t>(0, totalBytes - liveBackoffBytes)`.
unfoldable pub tail_target : StreamState → ℕ
unfolding live_backoff_bytes
tail_target s = s.total_bytes - live_backoff_bytes s.segments

-- The end of a seek, from the target that the switch computed.
unfoldable pub land : Option ℤ → Client → Option ℕ × Client
unfolding tail_target
land none c = (none, c)
land (some target) c =
    let new_pos =
      if ltb (tail_target c.stream) (pos_part target)
      then tail_target c.stream
      else pos_part target in
    if ltb_ℤ target (pos 0)
    then (none, c)
    else (some new_pos, record c { stream = record c.stream { position = new_pos } })

-- One round of the cold-start loop behind its refresh; `again` is the rest of the loop.
unfoldable pub after_refresh : Status → Client → (Client → ColdStart × Client) → ColdStart × Client
after_refresh ok c again =
    let rest = again c in
    if not (is_nil c.stream.segments)
    then (have_segment, c)
    else if c.stream.finished
    then (no_segment, c)
    else rest
after_refresh failed c again = (returned failed, c)

-- What follows the loop.
unfoldable pub opened : ColdStart × Client → Status × Client
unfolding close_stream
opened (returned st, c) = (st, close_stream c)
opened (have_segment, c) = (ok, record c { stream = record c.stream { position = 0 } })
opened (no_segment, c) =
    if c.stream.finished
    then (ok, record c { stream = record c.stream { position = 0 } })
    else (no_segments, close_stream c)

module _ (D : Doubles) where
  -- The loop, with `left` attempts to go; `env` gives each attempt its answers. The client that a
  -- failed refresh leaves is reset, so only its cache and key are kept.
  unfoldable pub cold_start : (ℕ → RefreshEnv) → ℕ → ℕ → Client → ColdStart × Client
  unfolding refresh_manifest after_refresh
  cold_start env zero attempt c = (no_segment, c)
  cold_start env (suc left) attempt c =
      let refreshed = refresh_manifest D true (env attempt) c in
      after_refresh refreshed.0 refreshed.1 (λ d. cold_start env left (suc attempt) d)

  -- OpenInProgressRecordingStream.
  unfoldable pub open_stream : (ℕ → RefreshEnv) → ℤ → ℤ → Client → Status × Client
  unfolding cold_start opened seeded lookup
  open_stream env id start c = opened (
      cold_start env k_cold_start_max_attempts 0
        (record c { stream = seeded id start (lookup id c.cache) }))

  -- A seek to the end looks for new segments first.
  unfoldable pub before_seek : Whence → RefreshEnv → Client → Client
  unfolding refresh_manifest
  before_seek seek_end env c = (refresh_manifest D true env c).1
  before_seek whence env c = c

  -- SeekInProgressRecordingStream; `none` is -1.
  unfoldable pub seek_stream : RefreshEnv → ℤ → Whence → Client → Option ℕ × Client
  unfolding land before_seek seek_target
  seek_stream env position whence c =
      let c' =
        before_seek whence env
          (record c { stream = record c.stream { last_seek_time = env.now } }) in
      if not c.stream.is_open
      then (none, c)
      else land (seek_target whence position c'.stream.position c'.stream.total_bytes) c'

  -- GetInProgressRecordingStreamLength; `none` is -1.
  unfoldable pub get_stream_length : RefreshEnv → Client → Option ℕ × Client
  unfolding refresh_manifest
  get_stream_length env c =
      let c' = (refresh_manifest D false env c).1 in
      if not c.stream.is_open then (none, c) else (some c'.stream.total_bytes, c')

  -- GetInProgressRecordingStreamDurationMs.
  unfoldable pub get_stream_duration_ms : RefreshEnv → Client → ℤ × Client
  unfolding refresh_manifest
  get_stream_duration_ms env c =
      let c' = (refresh_manifest D false env c).1 in
      if not c.stream.is_open then (pos 0, c) else (c'.stream.total_duration_ms, c')

-- GetInProgressRecordingStreamStartTime.
unfoldable pub get_stream_start_time : Client → ℤ
get_stream_start_time c = if c.stream.is_open then c.stream.start_time else pos 0
