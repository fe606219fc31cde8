-- ===== src/Live/Manifest.antt =====
-- RefreshLiveManifest: the new segments of the plugin's window are appended.
pub mod Layout
pub mod Repeat
use pvr_dispatcharrai.Prelude.{
  ℕ, ◌+◌, ◌-◌, ◌*◌, Bool, true, false, ◌==◌, ◌&&◌, ◌||◌, not, ltb, leb, if◌then◌else◌, Option, none,
  some, List, [], ◌∷◌, ◌++◌, ℤ, pos, pos_part, ◌+ℤ◌, ltb_ℤ, leb_ℤ,
}
use pvr_dispatcharrai.Prelude.Text.{Text, is_empty}
use pvr_dispatcharrai.Live.{
  LiveSegment, LiveStream, ManifestEntry, PluginReply, unwrap_plugin_run_result, reply_fatal,
  plugin_url,
}

-- What a refresh reads from outside.
pub record LiveRefreshEnv : Type 0 where
  pub now : ℕ
  pub reply : PluginReply

-- True, or false with what `fatalOut` is set to.
pub data Refreshing : Type 0 where
  refreshed : Refreshing
  refused : Bool → Refreshing

-- The sequence number of `segments.back()`; `none` is -1.
unfoldable pub last_known_sequence : List LiveSegment → Option ℕ
last_known_sequence [] = none
last_known_sequence (s ∷ []) = some s.sequence
last_known_sequence (s ∷ t ∷ ss) = last_known_sequence (t ∷ ss)

-- `!(sequence <= lastKnownSequence)`, for a sequence number from 0 on.
abbrev pub is_after : Option ℕ → ℕ → Bool
is_after none n = true
is_after (some m) n = ltb m n

abbrev pub is_merged : Option ℕ → ManifestEntry → Bool
is_merged known e =
    leb_ℤ (pos 0) e.sequence
    && (is_after known (pos_part e.sequence)
        && (not (is_empty e.filename) && ltb_ℤ (pos 0) e.byte_size))

unfoldable pub append_entry : LiveStream → ManifestEntry → LiveStream
append_entry s e = record s {
  segments =
      s.segments
      ++ record {
        filename = e.filename;
        sequence = pos_part e.sequence;
        byte_offset = s.total_bytes;
        byte_size = pos_part e.byte_size;
        time_offset_ms = s.total_duration_ms;
      }
        ∷ [];
  total_bytes = s.total_bytes + pos_part e.byte_size;
  total_duration_ms = s.total_duration_ms +ℤ e.duration_ms;
}

unfoldable pub merge_entry : Option ℕ → LiveStream → ManifestEntry → LiveStream
unfolding append_entry
merge_entry known s e = if is_merged known e then append_entry s e else s

-- The loop over the manifest; what is known is read once, before it.
unfoldable pub merge_entries : Option ℕ → LiveStream → List ManifestEntry → LiveStream
unfolding merge_entry
merge_entries known s [] = s
merge_entries known s (e ∷ es) = merge_entries known (merge_entry known s e) es

unfoldable pub absorb_manifest :
    Text → LiveRefreshEnv → Option (List ManifestEntry) → LiveStream → Refreshing × LiveStream
unfolding merge_entries last_known_sequence plugin_url
absorb_manifest host env none s = (refused false, s)
absorb_manifest host env (some entries) s =
    let based = record s { segment_base_url = plugin_url host env.reply } in
    (
      refreshed,
      record (merge_entries (last_known_sequence s.segments) based entries) {
        last_manifest_fetch = env.now;
      },
    )

abbrev pub k_live_refresh_interval : ℕ
k_live_refresh_interval = 500 * 1000000

abbrev pub is_live_throttled : Bool → ℕ → LiveStream → Bool
is_live_throttled force now s =
    not force
    && (not (s.last_manifest_fetch == 0)
        && ltb (now - s.last_manifest_fetch) k_live_refresh_interval)

-- RefreshLiveManifest.
unfoldable pub refresh_live_manifest :
    Text → Bool → LiveRefreshEnv → LiveStream → Refreshing × LiveStream
unfolding absorb_manifest unwrap_plugin_run_result
refresh_live_manifest host force env s =
    if not s.is_open
    then (refused false, s)
    else if is_live_throttled force env.now s
    then (refreshed, s)
    else if not env.reply.sent
    then (refused false, s)
    else if not (unwrap_plugin_run_result env.reply)
    then (refused (reply_fatal env.reply), s)
    else if leb_ℤ env.reply.http_port (pos 0) || is_empty env.reply.route
    then (refused false, s)
    else absorb_manifest host env env.reply.segments s
