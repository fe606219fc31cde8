-- ===== src/Live/Tests.antt =====
-- A channel of four segments of three bytes, and the theorems of this component at it.
use pvr_dispatcharrai.Prelude.{
  ℕ, zero, suc, ◌+◌, ◌-◌, ◌<◌, ◌≡◌, refl, true, false, some, List, [], ◌∷◌, pos, arith, length,
  take, drop, ap, ltb, if◌then◌else◌,
}
use pvr_dispatcharrai.Prelude.Text.{Text, codes, to_string}
use pvr_dispatcharrai.Http.{Reply}
use pvr_dispatcharrai.Live.{LiveSegment, LiveStream, initial_live, ManifestEntry, PluginReply}
use pvr_dispatcharrai.Live.Manifest.Repeat.{merge_entries_twice}
use pvr_dispatcharrai.Live.Manifest.{
  merge_entries, last_known_sequence, LiveRefreshEnv, refresh_live_manifest,
}
use pvr_dispatcharrai.Live.Manifest.Layout.{
  LiveServed, AreHonestIn, Grown, refresh_live_manifest-LiveServed,
}
use pvr_dispatcharrai.Live.Session.{LiveOpenEnv, open_live}
use pvr_dispatcharrai.Live.Session.Open.{OpensLive, open_live-OpensLive}
use pvr_dispatcharrai.Live.Read.{
  LiveReadEnv, read_live, live_bytes, range_text, live_catch_up, heartbeat,
}
use pvr_dispatcharrai.Live.Read.Content.{HasHonestRanges, LiveAnswer}
use pvr_dispatcharrai.Live.Read.Wait.{read_live-LiveAnswer}

abbrev server : Text
server = codes "h"

abbrev three_bytes : Text → Text
three_bytes name = 10 ∷ 20 ∷ 30 ∷ []

abbrev entry : Text → ℕ → ManifestEntry
entry name n = record {
  filename = name;
  sequence = pos n;
  byte_size = pos 3;
  duration_ms = pos 6000;
}

abbrev four_entries : List ManifestEntry
four_entries =
    entry (codes "a") 5 ∷ entry (codes "b") 6 ∷ entry (codes "c") 7 ∷ entry (codes "d") 8 ∷ []

abbrev manifest_reply : PluginReply
manifest_reply = record {
  sent = true;
  success = true;
  status = codes "ok";
  result_fatal = false;
  http_port = pos 80;
  route = codes "/x/";
  access_token = codes "t";
  segments = some four_entries;
}

abbrev at_five : LiveRefreshEnv
at_five = record { now = 5; reply = manifest_reply }

four_entries-AreHonest : AreHonestIn three_bytes (some four_entries)
four_entries-AreHonest = ((λ e. refl), ((λ e. refl), ((λ e. refl), ((λ e. refl), tt))))

abbrev opening : LiveOpenEnv
opening = record {
  new_viewer_id = codes "v";
  start = manifest_reply;
  refreshes = λ i. at_five;
  wall_clock = pos 1000;
}

-- Another answer from the thirty-first refresh on.
abbrev at_five_at_first : ℕ → LiveRefreshEnv
at_five_at_first j = if ltb j 30 then at_five else record at_five { now = 77 }

at_five_below : (j : ℕ) → j < 30 → at_five_at_first j ≡ at_five
at_five_below j h =
    let small : ltb j 30 ≡ true = ground arith in
    ap (λ b. if b then at_five else record at_five { now = 77 }) small

open_live-OpensLive_example :
    OpensLive three_bytes server opening
      (codes "c1")
      (open_live server opening (codes "c1") initial_live)
    × (open_live server (record opening { refreshes = at_five_at_first }) (codes "c1") initial_live
        ≡ open_live server opening (codes "c1") initial_live)
open_live-OpensLive_example =
    open_live-OpensLive three_bytes server opening at_five_at_first (codes "c1") initial_live
      (λ j. four_entries-AreHonest) at_five_below

-- The three segments that are kept begin at byte 0.
open_keeps_three : length (open_live server opening (codes "c1") initial_live).1.segments ≡ 3
unfolding open_live
open_keeps_three = refl

abbrev segment : Text → ℕ → ℕ → LiveSegment
segment name n offset = record {
  filename = name;
  sequence = n;
  byte_offset = offset;
  byte_size = 3;
  time_offset_ms = pos 0;
}

abbrev watched : LiveStream
watched = record initial_live {
  is_open = true;
  channel_uuid = codes "c1";
  viewer_id = codes "v";
  access_token = codes "t";
  segment_base_url = codes "http://h:80/x/";
  segments = segment (codes "a") 5 0 ∷ segment (codes "b") 6 3 ∷ [];
  total_bytes = 6;
  total_duration_ms = pos 12000;
  position = 4;
}

watched-LiveServed : LiveServed three_bytes watched
watched-LiveServed = record {
  valid = (refl, omega arith, (refl, omega arith, refl));
  sized = (refl, (refl, tt));
}

refresh_live_manifest-LiveServed_example :
    let t = (refresh_live_manifest server true at_five watched).1 in
    LiveServed three_bytes t × Grown watched t
refresh_live_manifest-LiveServed_example =
    refresh_live_manifest-LiveServed three_bytes server true at_five watched four_entries-AreHonest
      watched-LiveServed

-- Two entries are new to it.
refresh_adds_two : (refresh_live_manifest server true at_five watched).1.total_bytes ≡ 12
unfolding refresh_live_manifest
refresh_adds_two = refl

abbrev range_reply : Text → Reply
range_reply chunk = record {
  handle = true;
  sent_ok = true;
  http_code = 206;
  headers = codes "Content-Range: bytes 0-0/3" ∷ [];
  chunks = chunk ∷ [];
}

-- Ranges of one digit on each side.
abbrev serve_range : Text → Text → Reply
serve_range url (a ∷ dash ∷ b ∷ []) =
    range_reply (take (b + 1 - a) (drop (a - 48) (three_bytes url)))
serve_range url _ = record (range_reply []) { http_code = 404 }

abbrev reading : LiveReadEnv
reading = record { now = 9; refreshes = λ i. at_five; fetch = serve_range }

reading-HasHonestRanges : (s : LiveStream) → HasHonestRanges three_bytes reading s
unfolding range_text to_string
reading-HasHonestRanges s g zero (suc zero) h fits sent code = refl
reading-HasHonestRanges s g zero (suc (suc zero)) h fits sent code = refl
reading-HasHonestRanges s g zero (suc (suc (suc zero))) h fits sent code = refl
reading-HasHonestRanges s g (suc zero) (suc zero) h fits sent code = refl
reading-HasHonestRanges s g (suc zero) (suc (suc zero)) h fits sent code = refl
reading-HasHonestRanges s g (suc (suc zero)) (suc zero) h fits sent code = refl
reading-HasHonestRanges s g first size h fits sent code = absurd (omega arith)

read_live-LiveAnswer_example :
    LiveAnswer three_bytes reading 5 watched (read_live server reading 5 watched)
    × LiveServed three_bytes (read_live server reading 5 watched).1
read_live-LiveAnswer_example =
    read_live-LiveAnswer three_bytes server reading 5 watched (reading-HasHonestRanges watched)
      (reading-HasHonestRanges (live_catch_up server reading (heartbeat reading.now watched)))
      (λ j. four_entries-AreHonest) watched-LiveServed refl refl (omega arith)

-- The read at byte 4 stops at the end of the segment.
read_two_of_three : (read_live server reading 5 watched).0 ≡ live_bytes (20 ∷ 30 ∷ [])
unfolding read_live
read_two_of_three = refl

abbrev four_segments : LiveStream
four_segments = record watched {
  segments =
      segment (codes "a") 5 0
      ∷ segment (codes "b") 6 3
      ∷ segment (codes "c") 7 6
      ∷ segment (codes "d") 8 9
      ∷ [];
  total_bytes = 12;
}

abbrev sought : LiveStream
sought = record four_segments { position = 3; last_seek_time = 5 }

-- The two new entries are taken in once.
merge_entries_twice_example :
    let once = merge_entries (some 6) watched four_entries in
    merge_entries (last_known_sequence once.segments) once four_entries ≡ once
unfolding last_known_sequence
merge_entries_twice_example =
    merge_entries_twice (pos 0) watched four_entries
      (omega arith, (omega arith, (omega arith, (omega arith, tt))))
