-- ===== src/Live/Read.antt =====
-- ReadLiveTimeshiftStream.
pub mod Content
pub mod Wait
use pvr_dispatcharrai.Prelude.{
  ℕ, zero, suc, ◌+◌, ◌-◌, ◌*◌, Bool, true, false, ◌==◌, ◌&&◌, ◌||◌, not, ltb, leb, if◌then◌else◌,
  Option, none, some, List, [], ◌∷◌, ◌++◌, ℤ, pos, negsuc, pos_part, leb_ℤ, eqb_ℤ, length, min,
}
use pvr_dispatcharrai.Prelude.Text.{Text, codes, is_empty, to_string}
use pvr_dispatcharrai.Http.{
  Reply, FixedBufferSink, write_all, recording_header_callback, run_headers,
}
use pvr_dispatcharrai.Stream.{locate, estimate_segment_duration_ms, compute_catch_up_attempts}
use pvr_dispatcharrai.Live.{LiveSegment, LiveSegment-SegmentT, LiveStream}
use pvr_dispatcharrai.Live.Manifest.{
  LiveRefreshEnv, Refreshing, refreshed, refused, refresh_live_manifest,
}

-- What a read reads from outside: the clock, the refreshes of its wait in turn, and the reply to
-- the request for a range of a URL.
pub record LiveReadEnv : Type 0 where
  pub now : ℕ
  pub refreshes : ℕ → LiveRefreshEnv
  pub fetch : Text → Text → Reply

-- The int returned: -1, or the bytes put into the buffer.
pub data LiveOutcome : Type 0 where
  live_failed : LiveOutcome
  live_bytes : Text → LiveOutcome

abbrev pub k_heartbeat_interval : ℕ
k_heartbeat_interval = 10 * 1000000000

abbrev pub k_live_catch_up_sleep_ms : ℕ
k_live_catch_up_sleep_ms = 250

abbrev pub k_live_seek_probe_window : ℕ
k_live_seek_probe_window = 800 * 1000000

-- The heartbeat of a read: whether it is sent shows in the time recorded.
unfoldable pub heartbeat : ℕ → LiveStream → LiveStream
heartbeat now s =
    if not (is_empty s.viewer_id)
      && ((s.last_heartbeat_sent == 0) || leb k_heartbeat_interval (now - s.last_heartbeat_sent))
    then record s { last_heartbeat_sent = now }
    else s

abbrev pub is_last_give_up : Option ℕ → ℕ → Bool
is_last_give_up none p = false
is_last_give_up (some q) p = q == p

abbrev pub is_live_seek_probe : ℕ → LiveStream → Bool
is_live_seek_probe now s =
    not (is_last_give_up s.last_short_give_up_position s.position)
    && (not (s.last_seek_time == 0) && ltb (now - s.last_seek_time) k_live_seek_probe_window)

abbrev pub is_at_live_tail : LiveStream → Bool
is_at_live_tail s = leb s.total_bytes s.position

-- A round of the wait behind its refresh.
unfoldable pub after_wait_refresh : Refreshing → LiveStream → (LiveStream → LiveStream) → LiveStream
after_wait_refresh (refused true) s again = record s { fatal = true }
after_wait_refresh (refused false) s again =
    let rest = again s in if not (is_at_live_tail s) then s else rest
after_wait_refresh refreshed s again =
    let rest = again s in if not (is_at_live_tail s) then s else rest

-- `url` and `range` of the request.
abbrev pub live_segment_url : LiveStream → LiveSegment → Text
live_segment_url s seg = s.segment_base_url ++ seg.filename ++ codes "?token=" ++ s.access_token

unfoldable pub range_text : ℕ → ℕ → Text
unfolding to_string
range_text first size = to_string (pos first) ++ codes "-" ++ to_string (pos (first + size - 1))

-- `serverReportedTotal >= 0 && serverReportedTotal != seg->byteSize`.
abbrev pub is_mismatch : ℤ → ℕ → Bool
is_mismatch total size = leb_ℤ (pos 0) total && not (eqb_ℤ total (pos size))

-- What a reply comes to, for a request of `want_size` bytes of segment `seg`.
unfoldable pub judge_range : ℕ → LiveSegment → Reply → LiveStream → LiveOutcome × LiveStream
unfolding write_all recording_header_callback run_headers
judge_range want_size seg r s =
    let written = (write_all (record { capacity = want_size; written = [] }) r.chunks).written in
    let kept = record s { curl = true } in
    let total = run_headers recording_header_callback (negsuc 0) r.headers in
    if not s.curl && not r.handle
    then (live_failed, s)
    else if not r.sent_ok
    then (live_failed, record s { curl = false })
    else if r.http_code == 404
    then (live_bytes [], kept)
    else if not (r.http_code == 200) && not (r.http_code == 206)
    then (live_failed, kept)
    else if is_mismatch total seg.byte_size
    then (live_failed, record kept { fatal = true })
    else (live_bytes written, record kept { position = s.position + length written })

-- The half of a read behind the wait.
unfoldable pub read_live_segment :
    LiveReadEnv → ℕ → LiveStream → Option LiveSegment → LiveOutcome × LiveStream
unfolding judge_range range_text
read_live_segment env size s none = (live_bytes [], s)
read_live_segment env size s (some seg) =
    let offset_in_segment = s.position - seg.byte_offset in
    let want_size = min size (seg.byte_size - offset_in_segment) in
    judge_range want_size seg
      (env.fetch (live_segment_url s seg) (range_text offset_in_segment want_size)) s

unfoldable pub read_live_located : LiveReadEnv → ℕ → LiveStream → LiveOutcome × LiveStream
unfolding read_live_segment locate
read_live_located env size s = read_live_segment env size s (locate s.position s.segments)

module _ (host : Text) where
  -- The loop of the wait, with `left` attempts to go.
  unfoldable pub live_catch_up_loop : (ℕ → LiveRefreshEnv) → ℕ → ℕ → LiveStream → LiveStream
  unfolding refresh_live_manifest after_wait_refresh
  live_catch_up_loop env zero attempt s = s
  live_catch_up_loop env (suc left) attempt s =
      let r = refresh_live_manifest host true (env attempt) s in
      let rest = after_wait_refresh r.0 r.1 (λ t. live_catch_up_loop env left (suc attempt) t) in
      if not (is_at_live_tail s) then s else rest

  -- The wait at the tail; a stream that turned fatal is returned as the loop left it.
  unfoldable pub live_catch_up : LiveReadEnv → LiveStream → LiveStream
  unfolding live_catch_up_loop compute_catch_up_attempts estimate_segment_duration_ms
  live_catch_up env s =
      let probe = is_live_seek_probe env.now s in
      let estimate = estimate_segment_duration_ms s.total_duration_ms s.segments in
      let attempts = compute_catch_up_attempts probe estimate k_live_catch_up_sleep_ms in
      let t = live_catch_up_loop env.refreshes (pos_part attempts) 0 s in
      if t.fatal then t else record t {
        last_short_give_up_position = if probe && is_at_live_tail t then some t.position else none;
      }

  -- A read that is not refused at once.
  unfoldable pub read_live_alive : LiveReadEnv → ℕ → LiveStream → LiveOutcome × LiveStream
  unfolding live_catch_up read_live_located
  read_live_alive env size s =
      let t = live_catch_up env s in
      if is_at_live_tail s
      then (if t.fatal
          then (live_failed, t)
          else if is_at_live_tail t
          then (live_bytes [], t)
          else read_live_located env size t)
      else read_live_located env size s

  -- ReadLiveTimeshiftStream.
  unfoldable pub read_live : LiveReadEnv → ℕ → LiveStream → LiveOutcome × LiveStream
  unfolding heartbeat read_live_alive
  read_live env size s =
      if not s.is_open || (size == 0)
      then (live_bytes [], s)
      else if s.fatal
      then (live_failed, s)
      else read_live_alive env size (heartbeat env.now s)
