-- ===== src/InProgress/Read.antt =====
-- ReadInProgressRecordingStream: wait at the tail, find the segment, fetch it whole, copy from it.
pub mod Wait
pub mod Content
use pvr_dispatcharrai.Prelude.{
  ℕ, zero, suc, ◌+◌, ◌-◌, ◌*◌, Bool, true, false, ◌==◌, ◌&&◌, ◌||◌, ltb, leb, not, if◌then◌else◌,
  Option, none, some, List, [], ◌∷◌, pos_part, min, take, drop, length,
}
use pvr_dispatcharrai.Prelude.Text.{Text}
use pvr_dispatcharrai.Http.{Reply, write_callback, retried, generate_api_key}
use pvr_dispatcharrai.Stream.{locate, estimate_segment_duration_ms, compute_catch_up_attempts}
use pvr_dispatcharrai.InProgress.{SegmentInfo, SegmentInfo-SegmentT, StreamState, Client, Doubles}
use pvr_dispatcharrai.InProgress.Refresh.{RefreshEnv, refresh_manifest}

-- The answers of the outside to one read.
pub record ReadEnv : Type 0 where
  -- `steady_clock::now()`, where the read meets the tail
  pub now : ℕ
  -- the refreshes of the catch-up loop, by attempt
  pub refreshes : ℕ → RefreshEnv
  -- the fetch of a segment's body, by attempt, key and URL, and the key that a 401 asks for
  pub fetch : ℕ → Text → Text → Reply
  pub regenerated : Option Text

-- What a read returns: -1, or the bytes that it wrote, whose number is the return value.
pub data Outcome : Type 0 where
  failed : Outcome
  bytes : Text → Outcome

abbrev pub k_catch_up_sleep_ms : ℕ
k_catch_up_sleep_ms = 250

abbrev pub k_seek_probe_window : ℕ
k_seek_probe_window = 800 * 1000000

abbrev pub is_position : Option ℕ → ℕ → Bool
is_position none p = false
is_position (some q) p = p == q

-- A read at the tail right after a seek, at a position that has not been given up on already.
abbrev pub likely_seek_probe : ℕ → StreamState → Bool
likely_seek_probe now s =
    not (is_position s.last_short_give_up_position s.position)
    && (not (s.last_seek_time == 0) && ltb (now - s.last_seek_time) k_seek_probe_window)

-- `offsetInSegment` and what follows it, once the segment at `offset` is cached.
unfoldable pub copy_cached : ℕ → ℕ → Client → Outcome × Client
copy_cached size offset c =
    let cached = c.stream.cached_segment_bytes in
    let offset_in_segment = c.stream.position - offset in
    let want_size = min size (length cached - offset_in_segment) in
    if leb (length cached) offset_in_segment then (bytes [], c) else (
      bytes (take want_size (drop offset_in_segment cached)),
      record c { stream = record c.stream { position = c.stream.position + want_size } },
    )

-- What a reply comes to: the body is cached, or -1 is returned; the kept handle is dropped when the
-- transfer failed.
unfoldable pub judge_segment : SegmentInfo → Reply → Client → Bool × Client
unfolding write_callback
judge_segment seg r c =
    if not r.sent_ok
    then (false, record c { stream = record c.stream { curl = false } })
    else if not (r.http_code == 200)
    then (false, record c { stream = record c.stream { curl = true } })
    else (
      true,
      record c {
        stream = record c.stream {
          curl = true;
          cached_segment_bytes = write_callback [] r.chunks;
          cached_segment_byte_offset = some seg.byte_offset;
        };
      },
    )

-- The attempts at a segment's body: whether it is cached, or -1 was returned.
unfoldable pub fetch_segment : ReadEnv → SegmentInfo → ℕ → ℕ → Client → Bool × Client
unfolding judge_segment generate_api_key
fetch_segment env seg zero i c = (false, c)
fetch_segment env seg (suc left) i c =
    let r = env.fetch i c.api_key seg.url in
    let again = λ (k : Text).
      fetch_segment env seg left (suc i)
        (record c { stream = record c.stream { curl = true }; api_key = k }) in
    let judged = judge_segment seg r c in
    if not c.stream.curl && not r.handle
    then (false, c)
    else if (r.http_code == 401) && (i == 0)
    then retried (generate_api_key env.regenerated) judged again
    else judged

-- The segment's bytes are fetched once, and stay cached while reads stay inside it.
unfoldable pub ensure_cached : ReadEnv → SegmentInfo → Client → Bool × Client
unfolding fetch_segment
ensure_cached env seg c =
    if is_position c.stream.cached_segment_byte_offset seg.byte_offset
    then (true, c)
    else fetch_segment env seg 2 0 c

unfoldable pub copy_if : ℕ → SegmentInfo → Bool × Client → Outcome × Client
unfolding copy_cached
copy_if size seg (false, c) = (failed, c)
copy_if size seg (true, c) = copy_cached size seg.byte_offset c

unfoldable pub read_found : ReadEnv → ℕ → Client → Option SegmentInfo → Outcome × Client
unfolding ensure_cached copy_if
read_found env size c none = (bytes [], c)
read_found env size c (some seg) = copy_if size seg (ensure_cached env seg c)

-- The half of a read behind the catch-up: the segment at the position, from the cache or fetched.
unfoldable pub read_located : ReadEnv → ℕ → Client → Outcome × Client
unfolding locate read_found
read_located env size c = read_found env size c (locate c.stream.position c.stream.segments)

abbrev pub is_at_tail : StreamState → Bool
is_at_tail s = leb s.total_bytes s.position

module _ (D : Doubles) where
  -- The catch-up loop, with `left` attempts to go.
  unfoldable pub catch_up_loop : (ℕ → RefreshEnv) → ℕ → ℕ → Client → Client
  unfolding refresh_manifest
  catch_up_loop env zero attempt c = c
  catch_up_loop env (suc left) attempt c =
      let c' = (refresh_manifest D true (env attempt) c).1 in
      let later = catch_up_loop env left (suc attempt) c' in
      if not (is_at_tail c.stream)
      then c
      else if not (is_at_tail c'.stream)
      then c'
      else if c'.stream.finished
      then c'
      else later

  -- The wait at the tail, up to the position that it records for the next read.
  unfoldable pub catch_up : ReadEnv → Client → Client
  unfolding catch_up_loop compute_catch_up_attempts estimate_segment_duration_ms
  catch_up env c =
      let probe = likely_seek_probe env.now c.stream in
      let estimate = estimate_segment_duration_ms c.stream.total_duration_ms c.stream.segments in
      let attempts = compute_catch_up_attempts probe estimate k_catch_up_sleep_ms in
      let c' = catch_up_loop env.refreshes (pos_part attempts) 0 c in
      record c' {
        stream = record c'.stream {
          last_short_give_up_position =
              if probe && is_at_tail c'.stream then some c'.stream.position else none;
        };
      }

  -- ReadInProgressRecordingStream.
  unfoldable pub read_stream : ReadEnv → ℕ → Client → Outcome × Client
  unfolding catch_up read_located
  read_stream env size c =
      let c' = catch_up env c in
      if not c.stream.is_open || (size == 0)
      then (bytes [], c)
      else if is_at_tail c.stream
      then (if c.stream.finished
          then (bytes [], c)
          else if is_at_tail c'.stream
          then (bytes [], c')
          else read_located env size c')
      else read_located env size c
