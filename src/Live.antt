-- ===== src/Live.antt =====
-- The live timeshift stream: LiveTimeshiftStreamState of src/DispatcharrClient.h, what the
-- timeshift plugin of the server answers, and the calls of it in src/DispatcharrClient.cpp.
pub mod Manifest
pub mod Session
pub mod Read
mod Tests
use pvr_dispatcharrai.Prelude.{
  ℕ, ◌+◌, ◌-◌, Bool, true, false, ◌==◌, ◌&&◌, ◌||◌, not, ltb, leb, if◌then◌else◌, Option, none,
  some, List, [], ◌∷◌, ◌++◌, ℤ, pos, negsuc, pos_part, ltb_ℤ, leb_ℤ,
}
use pvr_dispatcharrai.Prelude.Text.{Text, codes, is_empty, text_eq, find, to_string}
use pvr_dispatcharrai.Stream.{SegmentT}

-- LiveTimeshiftSegmentInfo. Only sequence numbers from 0 on are recorded.
pub record LiveSegment : Type 0 where
  pub filename : Text
  pub sequence : ℕ
  pub byte_offset : ℕ
  pub byte_size : ℕ
  pub time_offset_ms : ℤ

instance abbrev pub LiveSegment-SegmentT : SegmentT LiveSegment
LiveSegment-SegmentT = record {
  byte_offset = λ s. s.byte_offset;
  byte_size = λ s. s.byte_size;
  time_offset_ms = λ s. s.time_offset_ms;
}

-- LiveTimeshiftStreamState. A `steady_clock` reading is a number of nanoseconds, 0 before the
-- first; -1 as a position is `none`. `curl` is whether a handle is kept.
pub record LiveStream : Type 0 where
  pub is_open : Bool
  pub channel_uuid : Text
  pub viewer_id : Text
  pub access_token : Text
  pub segment_base_url : Text
  pub segments : List LiveSegment
  pub total_bytes : ℕ
  pub total_duration_ms : ℤ
  pub position : ℕ
  pub wall_clock_anchor : ℤ
  pub last_manifest_fetch : ℕ
  pub last_seek_time : ℕ
  pub last_short_give_up_position : Option ℕ
  pub last_heartbeat_sent : ℕ
  pub curl : Bool
  pub fatal : Bool

-- The default member initialisers.
abbrev pub initial_live : LiveStream
initial_live = record {
  is_open = false;
  channel_uuid = [];
  viewer_id = [];
  access_token = [];
  segment_base_url = [];
  segments = [];
  total_bytes = 0;
  total_duration_ms = pos 0;
  position = 0;
  wall_clock_anchor = pos 0;
  last_manifest_fetch = 0;
  last_seek_time = 0;
  last_short_give_up_position = none;
  last_heartbeat_sent = 0;
  curl = false;
  fatal = false;
}

-- An entry of the manifest's `segments`, each field read by FieldOr with its default.
pub record ManifestEntry : Type 0 where
  pub filename : Text
  pub sequence : ℤ
  pub byte_size : ℤ
  pub duration_ms : ℤ

-- What a call of the plugin's run endpoint comes to, read by FieldOr. `sent` is whether both
-- EnsureAuthenticated and Request succeeded; `route` is `segment_route_prefix` or
-- `playlist_route`, whichever the call asks for; `segments` is `none` unless it is an array.
pub record PluginReply : Type 0 where
  pub sent : Bool
  pub success : Bool
  pub status : Text
  pub result_fatal : Bool
  pub http_port : ℤ
  pub route : Text
  pub access_token : Text
  pub segments : Option (List ManifestEntry)

-- UnwrapPluginRunResult.
unfoldable pub unwrap_plugin_run_result : PluginReply → Bool
unfolding text_eq
unwrap_plugin_run_result r = r.success && text_eq r.status (codes "ok")

-- The `fatal` field of the result, which is an empty value where the envelope failed.
abbrev pub reply_fatal : PluginReply → Bool
reply_fatal r = r.success && r.result_fatal

-- `"http://" + host + ":" + port + route`.
unfoldable pub plugin_url : Text → PluginReply → Text
unfolding to_string
plugin_url host r = codes "http://" ++ host ++ codes ":" ++ to_string r.http_port ++ r.route

abbrev pub with_token : Text → Text → Text
with_token url token =
    url
    ++ (elim (find url (codes "?")) [ none ↦ codes "?token=" | some i ↦ codes "&token=" ])
    ++ token

-- CallTimeshiftPluginAction: the playlist URL, or `none` for false; a token that comes is kept.
-- The wait for the playlist that ends it changes no state.
unfoldable pub call_timeshift_plugin_action :
    Text → PluginReply → LiveStream → Option Text × LiveStream
unfolding unwrap_plugin_run_result plugin_url find
call_timeshift_plugin_action host r s =
    if not r.sent || not (unwrap_plugin_run_result r)
    then (none, s)
    else if leb_ℤ r.http_port (pos 0) || is_empty r.route
    then (none, s)
    else if is_empty r.access_token
    then (some (plugin_url host r), s)
    else (
      some (with_token (plugin_url host r) r.access_token),
      record s { access_token = r.access_token },
    )
