-- ===== src/Live/Session.antt =====
-- Opening, seeking, asking and closing: OpenLiveTimeshiftStream, SeekLiveTimeshiftStream, the
-- getters and CloseLiveTimeshiftStream.
pub mod Trim
pub mod Open
pub mod Seek
use pvr_dispatcharrai.Prelude.{
  ℕ, zero, suc, ◌+◌, ◌-◌, Bool, true, false, ◌&&◌, not, ltb, if◌then◌else◌, Option, none, some,
  List, [], ◌∷◌, map, ℤ, pos, pos_part, ◌-ℤ◌, ltb_ℤ, length, drop, get_elem?, min,
}
use pvr_dispatcharrai.Prelude.Text.{Text, is_empty}
use pvr_dispatcharrai.Stream.{Whence, seek_end, seek_target}
use pvr_dispatcharrai.Live.{
  LiveSegment, LiveStream, initial_live, PluginReply, call_timeshift_plugin_action,
}
use pvr_dispatcharrai.Live.Manifest.{
  LiveRefreshEnv, Refreshing, refreshed, refused, refresh_live_manifest,
}

-- What an open reads from outside: GenerateViewerId, the reply to `start_buffer`, the refreshes of
-- the cold start in turn, and `std::time`.
pub record LiveOpenEnv : Type 0 where
  pub new_viewer_id : Text
  pub start : PluginReply
  pub refreshes : ℕ → LiveRefreshEnv
  pub wall_clock : ℤ

abbrev pub k_live_cold_start_max_attempts : ℕ
k_live_cold_start_max_attempts = 30

abbrev pub k_live_edge_margin_segments : ℕ
k_live_edge_margin_segments = 3

-- How many trailing segments a seek stays away from the tail.
abbrev pub k_live_edge_seek_backoff_segments : ℕ
k_live_edge_seek_backoff_segments = 3

-- A round of the cold start behind its refresh: whether the manifest is ready.
unfoldable pub after_live_refresh :
    Refreshing → LiveStream → (LiveStream → Bool × LiveStream) → Bool × LiveStream
after_live_refresh refreshed s again = (true, s)
after_live_refresh (refused true) s again = (false, s)
after_live_refresh (refused false) s again = again s

-- The offsets of a kept segment less those of the first one kept.
abbrev pub rebased : ℕ → ℤ → LiveSegment → LiveSegment
rebased byte_base time_base s = record s {
  byte_offset = s.byte_offset - byte_base;
  time_offset_ms = s.time_offset_ms -ℤ time_base;
}

-- The stream from its segment number `drop_count` on, which is `first`.
unfoldable pub rebase_from : ℕ → Option LiveSegment → LiveStream → LiveStream
rebase_from drop_count none s = s
rebase_from drop_count (some first) s = record s {
  segments = map (rebased first.byte_offset first.time_offset_ms) (drop drop_count s.segments);
  total_bytes = s.total_bytes - first.byte_offset;
  total_duration_ms = s.total_duration_ms -ℤ first.time_offset_ms;
}

-- The trim to the last segments.
unfoldable pub trim_to_live_edge : LiveStream → LiveStream
unfolding rebase_from
trim_to_live_edge s =
    let drop_count = length s.segments - k_live_edge_margin_segments in
    if ltb k_live_edge_margin_segments (length s.segments)
    then rebase_from drop_count (get_elem? s.segments drop_count) s
    else s

abbrev pub offset_or : Option LiveSegment → ℕ → ℕ
offset_or none d = d
offset_or (some s) d = s.byte_offset

-- Where playback starts.
unfoldable pub start_position : LiveStream → ℕ
start_position s =
    let segment_count = length s.segments in
    let margin_index =
      if ltb k_live_edge_margin_segments segment_count
      then segment_count - k_live_edge_margin_segments
      else 0 in
    offset_or (get_elem? s.segments margin_index) s.total_bytes

-- What follows the cold start.
unfoldable pub settled_open : ℤ → Bool × LiveStream → Bool × LiveStream
unfolding trim_to_live_edge start_position
settled_open wall_clock (false, s) = (false, initial_live)
settled_open wall_clock (true, s) =
    let t = trim_to_live_edge s in
    (true, record t { wall_clock_anchor = wall_clock; position = start_position t })

-- CloseLiveTimeshiftStream, with the channel and viewer that StopTimeshiftBuffer is called for.
unfoldable pub close_live : LiveStream → Option (Text × Text) × LiveStream
close_live s = (
  if s.is_open && not (is_empty s.channel_uuid) then some (s.channel_uuid, s.viewer_id) else none,
  initial_live,
)

-- The bytes of the last segments, as many as the seek stays away from the tail.
unfoldable pub sum_bytes : List LiveSegment → ℕ
sum_bytes [] = 0
sum_bytes (s ∷ ss) = s.byte_size + sum_bytes ss

unfoldable pub live_edge_backoff : List LiveSegment → ℕ
unfolding sum_bytes
live_edge_backoff ss =
    sum_bytes (drop (length ss - min k_live_edge_seek_backoff_segments (length ss)) ss)

unfoldable pub live_tail_target : LiveStream → ℕ
unfolding live_edge_backoff
live_tail_target s = s.total_bytes - live_edge_backoff s.segments

-- The end of a seek, from the target that the switch computed.
unfoldable pub live_land : Option ℤ → LiveStream → Option ℕ × LiveStream
unfolding live_tail_target
live_land none s = (none, s)
live_land (some target) s =
    let new_pos = min (pos_part target) (live_tail_target s) in
    if ltb_ℤ target (pos 0) then (none, s) else (some new_pos, record s { position = new_pos })

module _ (host : Text) where
  -- The loop, with `left` attempts to go.
  unfoldable pub live_cold_start : (ℕ → LiveRefreshEnv) → ℕ → ℕ → LiveStream → Bool × LiveStream
  unfolding refresh_live_manifest after_live_refresh
  live_cold_start env zero attempt s = (false, s)
  live_cold_start env (suc left) attempt s =
      let r = refresh_live_manifest host true (env attempt) s in
      after_live_refresh r.0 r.1 (λ t. live_cold_start env left (suc attempt) t)

  -- Behind StartTimeshiftBuffer.
  unfoldable pub after_start : LiveOpenEnv → Text → Option Text × LiveStream → Bool × LiveStream
  unfolding live_cold_start settled_open
  after_start env uuid (none, s) = (false, s)
  after_start env uuid (some playlist_url, s) = settled_open env.wall_clock (
      live_cold_start env.refreshes k_live_cold_start_max_attempts 0
        (record s { is_open = true; channel_uuid = uuid }))

  -- OpenLiveTimeshiftStream.
  unfoldable pub open_live : LiveOpenEnv → Text → LiveStream → Bool × LiveStream
  unfolding after_start call_timeshift_plugin_action
  open_live env uuid s = after_start env uuid (
      call_timeshift_plugin_action host env.start
        (record initial_live { viewer_id = env.new_viewer_id }))

  -- A seek to the end looks for new segments first.
  unfoldable pub before_live_seek : Whence → LiveRefreshEnv → LiveStream → LiveStream
  unfolding refresh_live_manifest
  before_live_seek seek_end env s = (refresh_live_manifest host true env s).1
  before_live_seek whence env s = s

  -- SeekLiveTimeshiftStream; `none` is -1.
  unfoldable pub seek_live : LiveRefreshEnv → ℤ → Whence → LiveStream → Option ℕ × LiveStream
  unfolding live_land before_live_seek seek_target
  seek_live env position whence s =
      let t = before_live_seek whence env (record s { last_seek_time = env.now }) in
      if not s.is_open
      then (none, s)
      else if s.fatal
      then (none, s)
      else live_land (seek_target whence position t.position t.total_bytes) t

  -- GetLiveTimeshiftStreamLength; `none` is -1.
  unfoldable pub get_live_length : LiveRefreshEnv → LiveStream → Option ℕ × LiveStream
  unfolding refresh_live_manifest
  get_live_length env s =
      let t = (refresh_live_manifest host false env s).1 in
      if not s.is_open
      then (none, s)
      else if s.fatal
      then (some s.total_bytes, s)
      else (some t.total_bytes, t)

  -- GetLiveTimeshiftStreamDurationMs.
  unfoldable pub get_live_duration_ms : LiveRefreshEnv → LiveStream → ℤ × LiveStream
  unfolding refresh_live_manifest
  get_live_duration_ms env s =
      let t = (refresh_live_manifest host false env s).1 in
      if not s.is_open then (pos 0, s) else (t.total_duration_ms, t)

-- GetLiveTimeshiftStreamWallClockAnchor.
unfoldable pub get_wall_clock_anchor : LiveStream → ℤ
get_wall_clock_anchor s = if s.is_open then s.wall_clock_anchor else pos 0
