-- ===== src/Recording.antt =====
-- The stream over a completed recording: RecordingStreamState of src/DispatcharrClient.h, and
-- OpenRecordingStream, ReadRecordingStream, SeekRecordingStream, GetRecordingStreamLength and
-- CloseRecordingStream of src/DispatcharrClient.cpp.
pub mod Content
pub mod Open
pub mod Playback
mod Tests
use pvr_dispatcharrai.Prelude.{
  ℕ, zero, suc, ◌+◌, ◌-◌, Bool, true, false, ◌==◌, ◌&&◌, ◌||◌, not, leb, if◌then◌else◌, Option,
  none, some, List, [], ◌∷◌, ◌++◌, ℤ, pos, negsuc, pos_part, ltb_ℤ, leb_ℤ, length,
}
use pvr_dispatcharrai.Prelude.Text.{Text, codes, contains, find, to_string}
use pvr_dispatcharrai.Http.{
  Reply, is_success, FixedBufferSink, write_all, recording_header_callback, run_headers,
  generate_api_key, retried,
}
use pvr_dispatcharrai.Stream.{Whence, seek_set, seek_cur, seek_end, other, seek_target}

-- RecordingStreamState; `total` is its `length`, negative where it is not known, and `curl` is
-- whether a handle is kept.
pub record RecordingStream : Type 0 where
  pub is_open : Bool
  pub url : Text
  pub total : ℤ
  pub position : ℕ
  pub curl : Bool

abbrev pub initial_recording : RecordingStream
initial_recording = record {
  is_open = false;
  url = [];
  total = negsuc 0;
  position = 0;
  curl = false;
}

-- The members of DispatcharrClient that this part reads and writes.
pub record RecordingClient : Type 0 where
  pub stream : RecordingStream
  pub api_key : Text

-- The reply to the request that opens, with its effective URL and its content type.
pub record OpenReply : Type 0 where
  pub reply : Reply
  pub effective_url : Option Text
  pub content_type : Option Text

-- What an open reads from outside: the reply to each attempt, by the API key sent, and the key
-- that a 401 makes the client ask for.
pub record RecordingOpenEnv : Type 0 where
  pub perform : ℕ → Text → OpenReply
  pub regenerated : Option Text

pub data RecordingStatus : Type 0 where
  rec_ok no_libcurl request_failed hls_playlist unauthorized : RecordingStatus
  bad_status : ℕ → RecordingStatus

abbrev pub text_or : Option Text → Text → Text
text_or none d = d
text_or (some t) d = t

-- The redirect to a playlist that a recording in progress answers with.
unfoldable pub is_hls : Text → OpenReply → Bool
unfolding find
is_hls url r =
    contains (text_or r.content_type []) (codes "mpegurl")
    || contains (text_or r.effective_url url) (codes "/hls/")

-- The stream that an open makes of a good reply.
abbrev pub opened_stream : Text → OpenReply → RecordingStream
opened_stream url r = record initial_recording {
  is_open = true;
  url = text_or r.effective_url url;
  total = run_headers recording_header_callback (negsuc 0) r.reply.headers;
}

unfoldable pub judge_open : Text → OpenReply → RecordingClient → RecordingStatus × RecordingClient
unfolding is_hls recording_header_callback run_headers
judge_open url r c =
    if not (is_success r.reply.http_code)
    then (bad_status r.reply.http_code, c)
    else if is_hls url r
    then (hls_playlist, c)
    else (rec_ok, record c { stream = opened_stream url r })

-- The loop, from attempt `i` on, with `left` attempts to go.
unfoldable pub open_attempts :
    RecordingOpenEnv → Text → ℕ → ℕ → RecordingClient → RecordingStatus × RecordingClient
unfolding judge_open generate_api_key
open_attempts env url zero i c = (unauthorized, c)
open_attempts env url (suc left) i c =
    let r = env.perform i c.api_key in
    let judged = judge_open url r c in
    let again = λ (k : Text). open_attempts env url left (suc i) (record c { api_key = k }) in
    if not r.reply.handle
    then (no_libcurl, c)
    else if not r.reply.sent_ok
    then (request_failed, c)
    else if (r.reply.http_code == 401) && (i == 0)
    then retried (generate_api_key env.regenerated) judged again
    else judged

-- CloseRecordingStream.
unfoldable pub close_recording : RecordingClient → RecordingClient
close_recording c = record c { stream = initial_recording }

-- OpenRecordingStream, for the URL of the recording's file.
unfoldable pub open_recording :
    RecordingOpenEnv → Text → RecordingClient → RecordingStatus × RecordingClient
unfolding open_attempts close_recording
open_recording env url c = open_attempts env url 2 0 (close_recording c)

-- What a read reads from outside: the reply to each attempt, by API key, URL and range.
pub record RecordingReadEnv : Type 0 where
  pub get : ℕ → Text → Text → Text → Reply
  pub regenerated : Option Text

-- The int returned: -1, or the bytes put into the buffer.
pub data RecordingOutcome : Type 0 where
  rec_failed : RecordingOutcome
  rec_bytes : Text → RecordingOutcome

-- `range` of the request.
unfoldable pub recording_range : ℕ → ℕ → Text
unfolding to_string
recording_range position size =
    to_string (pos position) ++ codes "-" ++ to_string (pos (position + size - 1))

unfoldable pub judge_read : ℕ → Reply → RecordingClient → RecordingOutcome × RecordingClient
unfolding write_all
judge_read size r c =
    let written = (write_all (record { capacity = size; written = [] }) r.chunks).written in
    if not r.sent_ok
    then (rec_failed, record c { stream = record c.stream { curl = false } })
    else if not (r.http_code == 200) && not (r.http_code == 206)
    then (rec_failed, record c { stream = record c.stream { curl = true } })
    else (
      rec_bytes written,
      record c {
        stream = record c.stream { curl = true; position = c.stream.position + length written };
      },
    )

unfoldable pub read_attempts :
    RecordingReadEnv → ℕ → Text → ℕ → ℕ → RecordingClient → RecordingOutcome × RecordingClient
unfolding judge_read generate_api_key
read_attempts env size range zero i c = (rec_failed, c)
read_attempts env size range (suc left) i c =
    let r = env.get i c.api_key c.stream.url range in
    let judged = judge_read size r c in
    let again = λ (k : Text).
      read_attempts env size range left (suc i)
        (record c { stream = record c.stream { curl = true }; api_key = k }) in
    if not c.stream.curl && not r.handle
    then (rec_failed, c)
    else if (r.http_code == 401) && (i == 0)
    then retried (generate_api_key env.regenerated) judged again
    else judged

abbrev pub is_at_eof : RecordingStream → Bool
is_at_eof s = leb_ℤ (pos 0) s.total && leb (pos_part s.total) s.position

-- ReadRecordingStream.
unfoldable pub read_recording :
    RecordingReadEnv → ℕ → RecordingClient → RecordingOutcome × RecordingClient
unfolding read_attempts recording_range
read_recording env size c =
    if not c.stream.is_open || (size == 0)
    then (rec_bytes [], c)
    else if is_at_eof c.stream
    then (rec_bytes [], c)
    else read_attempts env size (recording_range c.stream.position size) 2 0 c

-- The switch of the seek, which has no end where the length is not known.
unfoldable pub recording_target : Whence → ℤ → RecordingStream → Option ℤ
unfolding seek_target
recording_target seek_end position s =
    if ltb_ℤ s.total (pos 0)
    then none
    else seek_target seek_end position s.position (pos_part s.total)
recording_target seek_set position s = seek_target seek_set position s.position 0
recording_target seek_cur position s = seek_target seek_cur position s.position 0
recording_target other position s = none

unfoldable pub land_recording : Option ℤ → RecordingClient → Option ℕ × RecordingClient
land_recording none c = (none, c)
land_recording (some new_pos) c = if ltb_ℤ new_pos (pos 0) then (none, c) else (
  some (pos_part new_pos),
  record c { stream = record c.stream { position = pos_part new_pos } },
)

-- SeekRecordingStream; `none` is -1.
unfoldable pub seek_recording : ℤ → Whence → RecordingClient → Option ℕ × RecordingClient
unfolding recording_target land_recording
seek_recording position whence c =
    if not c.stream.is_open
    then (none, c)
    else land_recording (recording_target whence position c.stream) c

-- GetRecordingStreamLength.
unfoldable pub get_recording_length : RecordingClient → ℤ
get_recording_length c = c.stream.total
