-- ===== src/Instance/Settings.antt =====
-- OnAddonSettingChanged.
pub mod Restart
use pvr_dispatcharrai.Prelude.{
  ℕ, Bool, true, false, not, ◌||◌, if◌then◌else◌, List, [], ◌∷◌, ◌++◌, ℤ, pos, eqb_ℤ, suc,
}
use pvr_dispatcharrai.Prelude.Text.{Text, codes, text_eq}

-- Config, without debugLogging, which no setting changes there.
pub record Config : Type 0 where
  pub host : Text
  pub port : ℤ
  pub use_https : Bool
  pub username : Text
  pub password : Text
  pub verify_ssl : Bool
  pub timeout_seconds : ℤ
  pub api_key : Text

-- The members of PVRDispatcharr that settings change; the pre and post offsets that are sent to
-- the server, and how often the recording thread was woken.
pub record Applied : Type 0 where
  pub last_applied_config : Config
  pub live_timeshift_mode : ℤ
  pub channel_refresh_hours : ℤ
  pub epg_refresh_hours : ℤ
  pub enable_catchup_ffmpegdirect_seek : Bool
  pub recording_refresh_minutes : ℤ
  pub recurring_rule_utc_offset_minutes : ℤ
  pub debug_logging : Bool
  pub enable_realtime_updates : Bool
  pub sent_offsets : List (ℤ × ℤ)
  pub wakes : ℕ

-- `kodi::addon::CSettingValue`.
pub record SettingValue : Type 0 where
  pub get_string : Text
  pub get_int : ℤ
  pub get_boolean : Bool

-- The settings that have a branch.
pub data Setting : Type 0 where
  for_timeshift_mode for_channel_hours for_epg_hours for_catchup_seek : Setting
  for_recording_minutes for_rule_offset for_pre_offset for_post_offset : Setting
  for_debug_logging for_realtime for_host for_port for_https for_username : Setting
  for_password for_verify_ssl for_timeout for_api_key for_none : Setting

abbrev pub setting_names : List (Text × Setting)
setting_names =
    (codes "live_timeshift_mode", for_timeshift_mode)
    ∷ (codes "channel_refresh_hours", for_channel_hours)
    ∷ (codes "epg_refresh_hours", for_epg_hours)
    ∷ (codes "enable_catchup_ffmpegdirect_seek", for_catchup_seek)
    ∷ (codes "recording_refresh_minutes", for_recording_minutes)
    ∷ (codes "recurring_rule_utc_offset_minutes", for_rule_offset)
    ∷ (codes "recording_pre_offset_minutes", for_pre_offset)
    ∷ (codes "recording_post_offset_minutes", for_post_offset)
    ∷ (codes "debug_logging", for_debug_logging)
    ∷ (codes "enable_realtime_updates", for_realtime)
    ∷ (codes "host", for_host)
    ∷ (codes "port", for_port)
    ∷ (codes "use_https", for_https)
    ∷ (codes "username", for_username)
    ∷ (codes "password", for_password)
    ∷ (codes "verify_ssl", for_verify_ssl)
    ∷ (codes "timeout", for_timeout)
    ∷ (codes "api_key", for_api_key)
    ∷ []

unfoldable pub setting_among : List (Text × Setting) → Text → Setting
unfolding text_eq
setting_among [] name = for_none
setting_among ((known, setting) ∷ more) name =
    let later = setting_among more name in if text_eq name known then setting else later

-- ADDON_STATUS.
pub data AddonStatus : Type 0 where
  status_ok need_restart : AddonStatus

abbrev pub restart_if : Bool → AddonStatus
restart_if changed = if changed then need_restart else status_ok

abbrev pub same_flag : Bool → Bool → Bool
same_flag true b = b
same_flag false b = not b

-- The cached configuration after a setting of the connection, and whether it was another.
abbrev pub text_change : Text → Text → Bool
text_change value old = not (text_eq value old)

abbrev pub int_change : ℤ → ℤ → Bool
int_change value old = not (eqb_ℤ value old)

abbrev pub flag_change : Bool → Bool → Bool
flag_change value old = not (same_flag value old)

abbrev pub configure : Applied → Bool → Config → AddonStatus × Applied
configure s changed config = (restart_if changed, record s { last_applied_config = config })

-- The branch of a setting. `current` is GetSettingInt with its default.
unfoldable pub apply_setting :
    (Text → ℤ → ℤ) → Setting → SettingValue → Applied → AddonStatus × Applied
unfolding text_eq
apply_setting current for_timeshift_mode v s =
    (status_ok, record s { live_timeshift_mode = v.get_int })
apply_setting current for_channel_hours v s =
    (status_ok, record s { channel_refresh_hours = v.get_int })
apply_setting current for_epg_hours v s = (status_ok, record s { epg_refresh_hours = v.get_int })
apply_setting current for_catchup_seek v s =
    (status_ok, record s { enable_catchup_ffmpegdirect_seek = v.get_boolean })
apply_setting current for_recording_minutes v s =
    (status_ok, record s { recording_refresh_minutes = v.get_int; wakes = suc s.wakes })
apply_setting current for_rule_offset v s =
    (status_ok, record s { recurring_rule_utc_offset_minutes = v.get_int })
apply_setting current for_pre_offset v s =
    let post = current (codes "recording_post_offset_minutes") (pos 0) in
    (status_ok, record s { sent_offsets = s.sent_offsets ++ ((v.get_int, post) ∷ []) })
apply_setting current for_post_offset v s =
    let pre = current (codes "recording_pre_offset_minutes") (pos 0) in
    (status_ok, record s { sent_offsets = s.sent_offsets ++ ((pre, v.get_int) ∷ []) })
apply_setting current for_debug_logging v s =
    (status_ok, record s { debug_logging = v.get_boolean })
apply_setting current for_realtime v s = (
  restart_if (flag_change v.get_boolean s.enable_realtime_updates),
  record s { enable_realtime_updates = v.get_boolean },
)
apply_setting current for_host v s =
    let c = s.last_applied_config in
    configure s (text_change v.get_string c.host) (record c { host = v.get_string })
apply_setting current for_port v s =
    let c = s.last_applied_config in
    configure s (int_change v.get_int c.port) (record c { port = v.get_int })
apply_setting current for_https v s =
    let c = s.last_applied_config in
    configure s (flag_change v.get_boolean c.use_https) (record c { use_https = v.get_boolean })
apply_setting current for_username v s =
    let c = s.last_applied_config in
    configure s (text_change v.get_string c.username) (record c { username = v.get_string })
apply_setting current for_password v s =
    let c = s.last_applied_config in
    configure s (text_change v.get_string c.password) (record c { password = v.get_string })
apply_setting current for_verify_ssl v s =
    let c = s.last_applied_config in
    configure s (flag_change v.get_boolean c.verify_ssl) (record c { verify_ssl = v.get_boolean })
apply_setting current for_timeout v s =
    let c = s.last_applied_config in
    configure s (int_change v.get_int c.timeout_seconds) (record c { timeout_seconds = v.get_int })
apply_setting current for_api_key v s =
    let c = s.last_applied_config in
    configure s (text_change v.get_string c.api_key) (record c { api_key = v.get_string })
apply_setting current for_none v s = (status_ok, s)

-- OnAddonSettingChanged.
unfoldable pub on_addon_setting_changed :
    (Text → ℤ → ℤ) → Text → SettingValue → Applied → AddonStatus × Applied
unfolding setting_among apply_setting
on_addon_setting_changed current name v s =
    apply_setting current (setting_among setting_names name) v s
