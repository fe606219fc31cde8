-- ===== src/InProgress/Refresh.antt =====
-- RefreshInProgressRecordingManifest: fetch the playlist, size its new segments, append them,
-- keep the cross-open cache in step, and heal the API key.
pub mod Layout
pub mod Cache
pub mod Idempotent
use pvr_dispatcharrai.Prelude.{
  ℕ, zero, suc, ◌+◌, ◌-◌, ◌*◌, Bool, true, false, ◌==◌, ◌&&◌, ◌||◌, ltb, not, if◌then◌else◌,
  if_both, Option, none, some, List, [], ◌∷◌, ◌++◌, map, ℤ, pos, pos_part, ltb_ℤ, ◌+ℤ◌, length,
  drop,
}
use pvr_dispatcharrai.Prelude.Text.{Text, codes, is_empty, to_string}
use pvr_dispatcharrai.Http.{
  Reply, is_success, write_callback, retried, generate_api_key, is_api_key_valid_for,
}
use pvr_dispatcharrai.InProgress.{
  SegmentInfo, StreamState, SegmentCache, empty_cache, lookup, insert, erase, Client, Doubles,
  Status, ok, not_open, no_handle, transfer_failed, exhausted, http_status,
}
use pvr_dispatcharrai.InProgress.Playlist.{PendingSegment, pending_segments}
use pvr_dispatcharrai.InProgress.Probe.{probe_segment_byte_size, probed_sizes}

-- The answers of the outside to one refresh. A request is answered by the API key it carries.
pub record RefreshEnv : Type 0 where
  -- `steady_clock::now()`
  pub now : ℕ
  -- the two attempts at the playlist, and the key that a 401 makes the client ask for
  pub playlist : ℕ → Text → Reply
  pub regenerated : Option Text
  -- a segment's HEAD request, by key and URL, and the order in which a batch's threads finish
  pub probe : Text → Text → Reply
  pub order : ℕ → ℕ → List ℕ
  -- GetRecordingById: `none` if it failed, or the recording's `isInProgress`
  pub by_id : Option Bool
  -- the request of IsApiKeyValidFor, and the key that a bad one makes the client ask for
  pub key_check : Text → Reply
  pub healed : Option Text

-- FetchRawInProgressPlaylist from attempt `i` on, with `left` attempts to go: the status, the
-- text of the playlist, and the API key at the end.
unfoldable pub fetch_attempts :
    (ℕ → Text → Reply) → Option Text → ℕ → ℕ → Text → Status × Text × Text
unfolding write_callback
fetch_attempts perform regenerated zero i key = (exhausted, [], key)
fetch_attempts perform regenerated (suc left) i key =
    let r = perform i key in
    let again = λ (k : Text). fetch_attempts perform regenerated left (suc i) k in
    let judged : Status × Text × Text =
      if is_success r.http_code
      then (ok, write_callback [] r.chunks, key)
      else (http_status r.http_code, [], key) in
    if not r.handle
    then (no_handle, [], key)
    else if not r.sent_ok
    then (transfer_failed, [], key)
    else if (r.http_code == 401) && (i == 0)
    then retried regenerated judged again
    else judged

unfoldable pub fetch_raw_in_progress_playlist :
    (ℕ → Text → Reply) → Option Text → Text → Status × Text × Text
unfolding fetch_attempts
fetch_raw_in_progress_playlist perform regenerated key = fetch_attempts perform regenerated 2 0 key

abbrev pub k_min_refresh_interval : ℕ
k_min_refresh_interval = 500 * 1000000

abbrev pub base_dir : Client → Text
base_dir c =
    c.base_url
    ++ (codes "/api/channels/recordings/" ++ (to_string c.stream.recording_id ++ codes "/hls/"))

module _ (D : Doubles) where
  open D use {Double, to_ms}

  -- A sized segment goes to the end of the address space.
  unfoldable pub append_segment : StreamState → PendingSegment D → ℕ → StreamState
  append_segment s p size = record s {
    segments =
        s.segments
        ++ (record {
          url = p.url;
          byte_offset = s.total_bytes;
          byte_size = size;
          time_offset_ms = s.total_duration_ms;
        }
            ∷ []);
    total_bytes = s.total_bytes + size;
    total_duration_ms = s.total_duration_ms +ℤ to_ms p.duration_sec;
  }

  -- One round of the merge: a segment that could not be sized is skipped.
  unfoldable pub merge_segment : StreamState → PendingSegment D → ℤ → StreamState
  merge_segment s p size = if ltb_ℤ (pos 0) size then append_segment s p (pos_part size) else s

  unfoldable pub merge_segments : StreamState → List (PendingSegment D) → List ℤ → StreamState
  unfolding merge_segment
  merge_segments s [] sizes = s
  merge_segments s (p ∷ ps) [] = s
  merge_segments s (p ∷ ps) (size ∷ sizes) = merge_segments (merge_segment s p size) ps sizes

  -- The stream after a fetched playlist: what is new in it is sized with `probe` and merged.
  unfoldable pub extend_stream :
      Text → (Text → ℤ) → (ℕ → ℕ → List ℕ) → Text → StreamState → StreamState
  unfolding merge_segments pending_segments probed_sizes
  extend_stream dir probe order text s =
      let pending = pending_segments D dir (length s.segments) text in
      merge_segments s pending (probed_sizes probe (map (λ p. p.url) pending) order)

-- `m_inProgressSegmentCache[id]`, which makes an empty entry where there is none.
abbrev pub entry_or_empty : Option SegmentCache → SegmentCache
entry_or_empty none = empty_cache
entry_or_empty (some e) = e

-- The entry with the segments appended that the refresh from `old` to `new` added.
unfoldable pub appended_entry : StreamState → StreamState → SegmentCache → SegmentCache
appended_entry old new entry =
    let probed = length new.segments - length old.segments in
    record {
      segments = entry.segments ++ drop (length new.segments - probed) new.segments;
      total_bytes = new.total_bytes;
      total_duration_ms = new.total_duration_ms;
    }

-- The cache after a refresh that took the stream from `old` to `new`.
unfoldable pub update_cache :
    StreamState → StreamState → List (ℤ × SegmentCache) → List (ℤ × SegmentCache)
unfolding lookup insert erase appended_entry
update_cache old new cache =
    let id = new.recording_id in
    if ltb 0 (length new.segments - length old.segments) || new.finished
    then (if new.finished
        then erase id cache
        else insert id (appended_entry old new (entry_or_empty (lookup id cache))) cache)
    else cache

-- The last step: a key that the server no longer takes is replaced.
unfoldable pub heal_key : (Text → Reply) → Option Text → Text → Text
unfolding is_api_key_valid_for generate_api_key
heal_key check healed key =
    if not (is_empty key) && not (is_api_key_valid_for (check key))
    then (elim (generate_api_key healed) [ none ↦ key | some k ↦ k ])
    else key

-- `GetRecordingById(...) && rec.isInProgress`.
abbrev pub still_in_progress : Option Bool → Bool
still_in_progress none = false
still_in_progress (some b) = b

module _ (D : Doubles) where
  -- The rest of a refresh once the playlist `text` has come under the key `key`.
  unfoldable pub absorb_playlist : RefreshEnv → Text → Text → Client → Client
  unfolding extend_stream update_cache heal_key probe_segment_byte_size
  absorb_playlist env text key c =
      let grown =
        extend_stream D (base_dir c) (λ url. probe_segment_byte_size (env.probe key url)) env.order
          text c.stream in
      let checked : StreamState = record grown { finished = not (still_in_progress env.by_id) } in
      record c {
        stream = record checked { last_manifest_fetch = env.now };
        cache = update_cache c.stream checked c.cache;
        api_key = heal_key env.key_check env.healed key;
      }

  -- After the fetch: a playlist is absorbed, and a failure only leaves the key that it ended with.
  unfoldable pub settle : Status → RefreshEnv → Text → Text → Client → Status × Client
  unfolding absorb_playlist
  settle ok env text key c = (ok, absorb_playlist env text key c)
  settle failed env text key c = (failed, record c { api_key = key })

  -- The manifest was fetched less than half a second ago.
  abbrev pub is_throttled : Bool → ℕ → StreamState → Bool
  is_throttled force now s =
      not force
      && (not (s.last_manifest_fetch == 0)
          && ltb (now - s.last_manifest_fetch) k_min_refresh_interval)

  -- RefreshInProgressRecordingManifest.
  unfoldable pub refresh_manifest : Bool → RefreshEnv → Client → Status × Client
  unfolding fetch_raw_in_progress_playlist settle generate_api_key
  refresh_manifest force env c =
      let fetched =
        fetch_raw_in_progress_playlist env.playlist (generate_api_key env.regenerated) c.api_key in
      if not c.stream.is_open
      then (not_open, c)
      else if is_throttled force env.now c.stream
      then (ok, c)
      else settle fetched.0 env fetched.1 fetched.2 c

  -- A property of all three ways that a refresh can go.
  pub refresh_cases {ℓ} :
      (P : Status × Client → Type ℓ) (force : Bool) (env : RefreshEnv) (c : Client)
      → ((st : Status) → P (st, c))
      → ((st : Status) (text key : Text) → P (settle st env text key c))
      → P (refresh_manifest force env c)
  unfolding refresh_manifest
  refresh_cases P force env c same fetched =
      let answer =
        fetch_raw_in_progress_playlist env.playlist (generate_api_key env.regenerated) c.api_key in
      let last = settle answer.0 env answer.1 answer.2 c in
      let shut = not c.stream.is_open in
      let soon = is_throttled force env.now c.stream in
      if_both P shut {x = (not_open, c)} {y = if soon then (ok, c) else last} (same not_open)
        (if_both P soon {x = (ok, c)} {y = last} (same ok) (fetched answer.0 answer.1 answer.2))
