-- ===== src/InProgress/Tests.antt =====
-- A recording of two segments of three bytes, and the theorems of this component at it.
use native.Mathlib.Decide.{ℕ_discrete}
use pvr_dispatcharrai.Prelude.{
  ℕ, zero, suc, ◌+◌, ◌-◌, ◌*◌, ◌≤◌, ◌<◌, ◌≡◌, refl, inl, inr, true, none, some, List, [], ◌∷◌, ◌++◌,
  ℤ, ◌+ℤ◌, ap, ltb, if◌then◌else◌, pos, pos_part, arith, length, drop,
}
use pvr_dispatcharrai.Prelude.Text.{Text, codes, stoll, parse_int}
use pvr_dispatcharrai.Http.{Reply, write_callback}
use pvr_dispatcharrai.Stream.{seek_set, seek_cur, seek_end, other}
use pvr_dispatcharrai.Stream.Layout.{Contiguous}
use pvr_dispatcharrai.InProgress.{
  SegmentInfo, SegmentInfo-SegmentT, StreamState, initial, SegmentCache, Client, Doubles, lookup,
}
use pvr_dispatcharrai.InProgress.Playlist.{pending_segments, pop_cr, segment_url}
use pvr_dispatcharrai.InProgress.Playlist.Known.{pending_segments-drop}
use pvr_dispatcharrai.InProgress.Probe.{probe_segment_byte_size, probed_sizes}
use pvr_dispatcharrai.InProgress.Probe.Batches.{Occurs, IsComplete, probed_sizes-eq-map}
use pvr_dispatcharrai.InProgress.Refresh.{RefreshEnv, extend_stream, update_cache, refresh_manifest}
use pvr_dispatcharrai.InProgress.Refresh.Layout.{IsValid, refresh_manifest_lem}
use pvr_dispatcharrai.InProgress.Refresh.Idempotent.{
  extend_stream_twice, failed_probe_duplicates, urls,
}
use pvr_dispatcharrai.InProgress.Refresh.Cache.{InStep, update_cache-InStep, lost_prefix}
use pvr_dispatcharrai.InProgress.Served.{Served, HasHonestProbes, refresh_manifest-Served}
use pvr_dispatcharrai.InProgress.Session.{open_stream, seek_stream}
use pvr_dispatcharrai.InProgress.Session.Seek.{Lands, seek_stream_lem, seek_stream_leaves_segment}
use pvr_dispatcharrai.InProgress.Session.Open.{Opens, open_stream-Opens}
use pvr_dispatcharrai.InProgress.Read.{ReadEnv, bytes, read_stream}
use pvr_dispatcharrai.InProgress.Read.Wait.{Answer, read_stream-Answer}

-- Durations in whole seconds.
abbrev whole_seconds : Doubles
whole_seconds = record {
  Double = ℤ;
  zero = pos 0;
  stod = stoll;
  is_finite = λ d. true;
  to_ms = λ d. pos (pos_part d * 1000);
}

abbrev range_from : ℕ → ℕ → List ℕ
range_from b zero = []
range_from b (suc k) = b ∷ range_from (suc b) k

abbrev in_turn : ℕ → ℕ → List ℕ
in_turn b e = range_from b (e - b)

Occurs-in_range : (b k i : ℕ) → b ≤ i → i < b + k → Occurs i (range_from b k)
Occurs-in_range b zero i lo hi = absurd (omega arith)
Occurs-in_range b (suc k) i lo hi = elim (ℕ_discrete b i) [
  | yes e ↦ inl e
  | no ne ↦ inr (Occurs-in_range (suc b) k i (omega arith) (omega arith))
]

in_turn-IsComplete : IsComplete in_turn
in_turn-IsComplete b e i lo hi = Occurs-in_range b (e - b) i lo (omega arith)

abbrev three_bytes : Text → Text
three_bytes url = 10 ∷ 20 ∷ 30 ∷ []

abbrev answered : List Text → List Text → Reply
answered headers chunks = record {
  handle = true;
  sent_ok = true;
  http_code = 200;
  headers = headers;
  chunks = chunks;
}

abbrev playlist_text : Text
playlist_text =
    codes "#EXTINF:4," ++ 10 ∷ codes "s0" ++ 10 ∷ codes "#EXTINF:4," ++ 13 ∷ 10 ∷ codes "s1"

abbrev calm : RefreshEnv
calm = record {
  now = 5;
  playlist = λ i key. answered [] (playlist_text ∷ []);
  regenerated = none;
  probe = λ key url. answered (codes "Content-Length: 3" ∷ []) [];
  order = in_turn;
  by_id = some true;
  key_check = λ key. answered [] [];
  healed = none;
}

abbrev dir : Text
dir = codes "http://h/"

abbrev first : SegmentInfo
first = record { url = codes "http://h/s0"; byte_offset = 0; byte_size = 3; time_offset_ms = pos 0 }

abbrev second : SegmentInfo
second = record {
  url = codes "http://h/s1";
  byte_offset = 3;
  byte_size = 3;
  time_offset_ms = pos 4000;
}

abbrev two_segments : StreamState
two_segments = record initial {
  is_open = true;
  recording_id = pos 7;
  segments = first ∷ second ∷ [];
  total_bytes = 6;
  total_duration_ms = pos 8000;
  position = 4;
}

abbrev client : Client
client = record {
  stream = two_segments;
  cache = [];
  api_key = codes "k";
  base_url = codes "http://h";
}

abbrev fetching : ReadEnv
fetching = record {
  now = 9;
  refreshes = λ i. calm;
  fetch = λ i key url. answered [] ((10 ∷ []) ∷ (20 ∷ 30 ∷ []) ∷ []);
  regenerated = none;
}

calm_size : (key url : Text) → probe_segment_byte_size (calm.probe key url) ≡ pos 3
unfolding probe_segment_byte_size
calm_size key url = refl

calm-HasHonestProbes : HasHonestProbes three_bytes calm
calm-HasHonestProbes = (λ key url h. rw (calm_size key url) (omega arith), in_turn-IsComplete)

client-Served : Served three_bytes client.stream
client-Served = record {
  valid = (refl, omega arith, (refl, omega arith, refl));
  sized = (refl, (refl, tt));
  cached = inl refl;
}

refresh_manifest_lem_example :
    let d = (refresh_manifest whole_seconds true calm client).1 in
    (added : List SegmentInfo) × (d.stream.segments ≡ two_segments.segments ++ added)
    × IsValid d.stream
    × (6 ≤ d.stream.total_bytes)
    × (d.stream.position ≡ 4)
    × (d.stream.cached_segment_byte_offset ≡ none)
    × (d.stream.cached_segment_bytes ≡ [])
refresh_manifest_lem_example =
    refresh_manifest_lem whole_seconds true calm client
      (refl, omega arith, (refl, omega arith, refl))

-- The playlist lists two segments, so that knowing one leaves one pending.
playlist_of_two :
    pending_segments whole_seconds dir 0 playlist_text
    ≡ record { url = codes "http://h/s0"; duration_sec = pos 4 }
      ∷ record { url = codes "http://h/s1"; duration_sec = pos 4 }
      ∷ []
unfolding pending_segments parse_int pop_cr segment_url
playlist_of_two = refl

pending_segments-drop_example :
    pending_segments whole_seconds dir 1 playlist_text
    ≡ drop 1 (pending_segments whole_seconds dir 0 playlist_text)
pending_segments-drop_example = pending_segments-drop whole_seconds dir 1 playlist_text

abbrev sized_by_length : Text → ℤ
sized_by_length url = pos (length url)

probed_sizes-eq-map_example :
    probed_sizes sized_by_length (codes "a" ∷ codes "bcd" ∷ []) in_turn ≡ pos 1 ∷ pos 3 ∷ []
probed_sizes-eq-map_example =
    probed_sizes-eq-map sized_by_length (codes "a" ∷ codes "bcd" ∷ []) in_turn in_turn-IsComplete

read_stream-Answer_example :
    Answer three_bytes whole_seconds fetching 2 client (read_stream whole_seconds fetching 2 client)
    × Served three_bytes (read_stream whole_seconds fetching 2 client).1.stream
unfolding write_callback
read_stream-Answer_example =
    read_stream-Answer three_bytes whole_seconds fetching 2 client (λ i key url sent e. refl)
      (λ j. calm-HasHonestProbes) client-Served refl (omega arith)

-- The read at byte 4 stops at the end of the segment.
read_two_of_three : (read_stream whole_seconds fetching 5 client).0 ≡ bytes (20 ∷ 30 ∷ [])
unfolding read_stream
read_two_of_three = refl

refresh_manifest-Served_example :
    Served three_bytes (refresh_manifest whole_seconds true calm client).1.stream
refresh_manifest-Served_example =
    refresh_manifest-Served three_bytes whole_seconds true calm client calm-HasHonestProbes
      client-Served

-- A seek to the last byte is held one segment before the end.
seek_held_before_end : (seek_stream whole_seconds calm (pos 5) seek_set client).0 ≡ some 3
unfolding seek_stream
seek_held_before_end = refl

abbrev noted : Client
noted = record client { stream = record two_segments { position = 4; last_seek_time = 5 } }

seek_stream_lem_example :
    let fresh = (refresh_manifest whole_seconds true calm noted).1 in
    Lands (pos 5) noted (seek_stream whole_seconds calm (pos 5) seek_set client)
    × Lands (pos 9) noted (seek_stream whole_seconds calm (pos 5) seek_cur client)
    × Lands
        (pos fresh.stream.total_bytes +ℤ pos 5)
        fresh
        (seek_stream whole_seconds calm (pos 5) seek_end client)
    × (seek_stream whole_seconds calm (pos 5) other client ≡ (none, noted))
unfolding ◌+ℤ◌
seek_stream_lem_example = seek_stream_lem whole_seconds calm (pos 5) client refl

abbrev after_seek : Client
after_seek = record client { stream = record two_segments { position = 3; last_seek_time = 5 } }

seek_stream_leaves_segment_example :
    (after_seek.stream.position ≡ 3)
    × (3 + second.byte_size ≤ 6)
    × (3 < after_seek.stream.total_bytes)
unfolding seek_stream
seek_stream_leaves_segment_example =
    seek_stream_leaves_segment whole_seconds calm (pos 5) seek_set client after_seek 3 (first ∷ [])
      second (refl, omega arith, (refl, omega arith, refl)) refl refl refl

-- Another answer from the ninety-first refresh on.
abbrev calm_at_first : ℕ → RefreshEnv
calm_at_first j = if ltb j 90 then calm else record calm { now = 77 }

calm_below : (j : ℕ) → j < 90 → calm_at_first j ≡ calm
calm_below j h =
    let small : ltb j 90 ≡ true = ground arith in
    ap (λ b. if b then calm else record calm { now = 77 }) small

open_stream-Opens_example :
    Opens (pos 7) (open_stream whole_seconds (λ i. calm) (pos 7) (pos 0) client)
    × (open_stream whole_seconds calm_at_first (pos 7) (pos 0) client
        ≡ open_stream whole_seconds (λ i. calm) (pos 7) (pos 0) client)
unfolding lookup
open_stream-Opens_example =
    open_stream-Opens whole_seconds (λ i. calm) calm_at_first (pos 7) (pos 0) client tt calm_below

extend_stream_twice_example :
    let once = extend_stream whole_seconds dir (λ url. pos 3) in_turn playlist_text initial in
    (length (pending_segments whole_seconds dir 0 playlist_text) ≤ length once.segments)
    × (extend_stream whole_seconds dir (λ url. pos 3) in_turn playlist_text once ≡ once)
extend_stream_twice_example =
    extend_stream_twice whole_seconds dir (λ url. pos 3) in_turn playlist_text initial
      in_turn-IsComplete (λ url. refl)

-- Only the second segment was sized at the first look.
abbrev gapped : StreamState
gapped = record two_segments { segments = record second { byte_offset = 0 } ∷ []; total_bytes = 3 }

failed_probe_duplicates_example :
    (added : List Text) × (urls whole_seconds
        (extend_stream whole_seconds dir (λ url. pos 3) in_turn playlist_text gapped)
      ≡ ([] ++ codes "http://h/s1" ∷ []) ++ added ++ codes "http://h/s1" ∷ [])
unfolding pending_segments parse_int pop_cr segment_url
failed_probe_duplicates_example =
    failed_probe_duplicates whole_seconds dir (λ url. pos 3) in_turn playlist_text gapped
      (record { url = codes "http://h/s0"; duration_sec = pos 4 } ∷ [])
      (record { url = codes "http://h/s1"; duration_sec = pos 4 }) [] in_turn-IsComplete refl
      (omega arith) refl refl

abbrev one_segment : StreamState
one_segment = record two_segments {
  segments = first ∷ [];
  total_bytes = 3;
  total_duration_ms = pos 4000;
}

update_cache-InStep_example : InStep two_segments (
    update_cache one_segment two_segments (
      (pos 7, record { segments = first ∷ []; total_bytes = 3; total_duration_ms = pos 4000 })
      ∷ []))
unfolding lookup
update_cache-InStep_example =
    update_cache-InStep one_segment two_segments
      ((pos 7, record { segments = first ∷ []; total_bytes = 3; total_duration_ms = pos 4000 })
        ∷ [])
      (second ∷ []) refl refl refl (λ e. cc) (inr refl)

-- The refresh to `one_segment` took the recording for finished.
abbrev thought_done : StreamState
thought_done = record one_segment { finished = true }

abbrev first_entry : SegmentCache
first_entry = record { segments = first ∷ []; total_bytes = 3; total_duration_ms = pos 4000 }

lost_prefix_example :
    let erased = update_cache one_segment thought_done ((pos 7, first_entry) ∷ []) in
    (lookup (pos 7) erased ≡ none)
    × ((e : SegmentCache) × (lookup (pos 7) (update_cache thought_done two_segments erased)
          ≡ some e)
        × (e.segments ≡ second ∷ [])
        × (e.total_bytes ≡ 6)
        × ¬ Contiguous 0 e.segments e.total_bytes)
lost_prefix_example =
    lost_prefix one_segment thought_done two_segments ((pos 7, first_entry) ∷ []) (second ∷ []) refl
      refl refl refl (omega arith) (omega arith) (refl, omega arith, refl)
