-- ===== src/Instance/Settings/Restart.antt =====
-- When OnAddonSettingChanged asks for a restart.
use pvr_dispatcharrai.Prelude.{◌≡◌, refl, sym, ap, Bool, true, false, not, ℤ, eqb_ℤ, arith}
use pvr_dispatcharrai.Prelude.Text.{Text, text_eq}
use pvr_dispatcharrai.Prelude.Find.{text_eq→eq, text_eq_self}
use pvr_dispatcharrai.Instance.Settings.{
  Applied, SettingValue, Setting, for_timeshift_mode, for_channel_hours, for_epg_hours,
  for_catchup_seek, for_recording_minutes, for_rule_offset, for_pre_offset, for_post_offset,
  for_debug_logging, for_realtime, for_host, for_port, for_https, for_username, for_password,
  for_verify_ssl, for_timeout, for_api_key, for_none, setting_names, setting_among, AddonStatus,
  status_ok, need_restart, restart_if, text_change, int_change, flag_change, apply_setting,
  on_addon_setting_changed,
}

text_unchanged : (v : Text) → restart_if (text_change v v) ≡ status_ok
text_unchanged v = rw (text_eq_self v) refl

int_unchanged : (v : ℤ) → restart_if (int_change v v) ≡ status_ok
int_unchanged v = ground arith

flag_unchanged : (v : Bool) → restart_if (flag_change v v) ≡ status_ok
flag_unchanged true = refl
flag_unchanged false = refl

apply_setting-again :
    (current later : Text → ℤ → ℤ) (setting : Setting) (v : SettingValue) (s : Applied)
    → (apply_setting later setting v (apply_setting current setting v s).1).0 ≡ status_ok
unfolding apply_setting
apply_setting-again current later for_timeshift_mode v s = refl
apply_setting-again current later for_channel_hours v s = refl
apply_setting-again current later for_epg_hours v s = refl
apply_setting-again current later for_catchup_seek v s = refl
apply_setting-again current later for_recording_minutes v s = refl
apply_setting-again current later for_rule_offset v s = refl
apply_setting-again current later for_pre_offset v s = refl
apply_setting-again current later for_post_offset v s = refl
apply_setting-again current later for_debug_logging v s = refl
apply_setting-again current later for_realtime v s = flag_unchanged v.get_boolean
apply_setting-again current later for_host v s = text_unchanged v.get_string
apply_setting-again current later for_port v s = int_unchanged v.get_int
apply_setting-again current later for_https v s = flag_unchanged v.get_boolean
apply_setting-again current later for_username v s = text_unchanged v.get_string
apply_setting-again current later for_password v s = text_unchanged v.get_string
apply_setting-again current later for_verify_ssl v s = flag_unchanged v.get_boolean
apply_setting-again current later for_timeout v s = int_unchanged v.get_int
apply_setting-again current later for_api_key v s = text_unchanged v.get_string
apply_setting-again current later for_none v s = refl

no_restart : (b : Bool) → restart_if b ≡ status_ok → b ≡ false
no_restart true h = ground arith
no_restart false h = refl

of_not : (b : Bool) → not b ≡ false → b ≡ true
of_not true h = refl
of_not false h = ground arith

text_kept : (v old : Text) → restart_if (text_change v old) ≡ status_ok → v ≡ old
text_kept v old h = text_eq→eq v old (of_not (text_eq v old) (no_restart (text_change v old) h))

int_eq : (v old : ℤ) → eqb_ℤ v old ≡ true → v ≡ old
int_eq v old h = ground arith

int_kept : (v old : ℤ) → restart_if (int_change v old) ≡ status_ok → v ≡ old
int_kept v old h = int_eq v old (of_not (eqb_ℤ v old) (no_restart (int_change v old) h))

flag_kept : (v old : Bool) → restart_if (flag_change v old) ≡ status_ok → v ≡ old
flag_kept true true h = refl
flag_kept false false h = refl
flag_kept true false h = no_restart true h
flag_kept false true h = sym (no_restart true h)

-- What is only applied at a restart is as it was.
abbrev pub Kept : Applied → Applied → Type 0
Kept s t =
    (t.last_applied_config ≡ s.last_applied_config)
    × (t.enable_realtime_updates ≡ s.enable_realtime_updates)

apply_setting-Kept :
    (current : Text → ℤ → ℤ) (setting : Setting) (v : SettingValue) (s : Applied)
    → (apply_setting current setting v s).0 ≡ status_ok
    → Kept s (apply_setting current setting v s).1
unfolding apply_setting
apply_setting-Kept current for_timeshift_mode v s h = (refl, refl)
apply_setting-Kept current for_channel_hours v s h = (refl, refl)
apply_setting-Kept current for_epg_hours v s h = (refl, refl)
apply_setting-Kept current for_catchup_seek v s h = (refl, refl)
apply_setting-Kept current for_recording_minutes v s h = (refl, refl)
apply_setting-Kept current for_rule_offset v s h = (refl, refl)
apply_setting-Kept current for_pre_offset v s h = (refl, refl)
apply_setting-Kept current for_post_offset v s h = (refl, refl)
apply_setting-Kept current for_debug_logging v s h = (refl, refl)
apply_setting-Kept current for_realtime v s h =
    (refl, flag_kept v.get_boolean s.enable_realtime_updates h)
apply_setting-Kept current for_host v s h =
    let c = s.last_applied_config in
    (ap (λ k. record c { host = k }) (text_kept v.get_string c.host h), refl)
apply_setting-Kept current for_port v s h =
    let c = s.last_applied_config in
    (ap (λ k. record c { port = k }) (int_kept v.get_int c.port h), refl)
apply_setting-Kept current for_https v s h =
    let c = s.last_applied_config in
    (ap (λ k. record c { use_https = k }) (flag_kept v.get_boolean c.use_https h), refl)
apply_setting-Kept current for_username v s h =
    let c = s.last_applied_config in
    (ap (λ k. record c { username = k }) (text_kept v.get_string c.username h), refl)
apply_setting-Kept current for_password v s h =
    let c = s.last_applied_config in
    (ap (λ k. record c { password = k }) (text_kept v.get_string c.password h), refl)
apply_setting-Kept current for_verify_ssl v s h =
    let c = s.last_applied_config in
    (ap (λ k. record c { verify_ssl = k }) (flag_kept v.get_boolean c.verify_ssl h), refl)
apply_setting-Kept current for_timeout v s h =
    let c = s.last_applied_config in
    (ap (λ k. record c { timeout_seconds = k }) (int_kept v.get_int c.timeout_seconds h), refl)
apply_setting-Kept current for_api_key v s h =
    let c = s.last_applied_config in
    (ap (λ k. record c { api_key = k }) (text_kept v.get_string c.api_key h), refl)
apply_setting-Kept current for_none v s h = (refl, refl)

-- Unless there is to be a restart, what is only applied at one is as it was.
abbrev pub KeptUnless : AddonStatus → Applied → Applied → Type 0
KeptUnless status_ok s t = Kept s t
KeptUnless need_restart s t = Unit {0}

unless : (r : AddonStatus) (s t : Applied) → (r ≡ status_ok → Kept s t) → KeptUnless r s t
unless status_ok s t h = h refl
unless need_restart s t h = tt

-- If OnAddonSettingChanged asks for no restart, whatever the setting, then neither the
-- configuration of the connection nor the flag of the realtime updates, which are applied at a
-- restart only, has changed. And a second notice of the same value, whatever came of the first
-- and whatever Kodi's other settings are by then, never asks for a restart.
pub on_addon_setting_changed_lem :
    (current later : Text → ℤ → ℤ) (name : Text) (v : SettingValue) (s : Applied)
    → let first = on_addon_setting_changed current name v s in
      KeptUnless first.0 s first.1 × ((on_addon_setting_changed later name v first.1).0 ≡ status_ok)
unfolding on_addon_setting_changed
on_addon_setting_changed_lem current later name v s =
    let setting = setting_among setting_names name in
    let first = apply_setting current setting v s in
    (
      unless first.0 s first.1 (apply_setting-Kept current setting v s),
      apply_setting-again current later setting v s,
    )
