-- ===== src/Instance/Tests.antt =====
-- Settings, rules and recordings of one server, and the theorems of this component at them.
use pvr_dispatcharrai.Prelude.{
  ℕ, ◌≤◌, ◌≡◌, refl, true, false, Option, some, none, List, [], ◌∷◌, ℤ, pos, ◌+ℤ◌, ◌-ℤ◌, arith,
}
use pvr_dispatcharrai.Prelude.Text.{Text, codes}
use pvr_dispatcharrai.Instance.Settings.{
  Applied, SettingValue, status_ok, need_restart, on_addon_setting_changed,
}
use pvr_dispatcharrai.Instance.Settings.Restart.{KeptUnless, on_addon_setting_changed_lem}
use pvr_dispatcharrai.Instance.Realtime.{
  Realtime, told, silent, broken, attempt, no_token, connected_to, timed_up, round,
}
use pvr_dispatcharrai.Instance.Realtime.Backoff.{Reaches, here, then_round, backoff-IsBounded}
use pvr_dispatcharrai.Instance.Caches.{
  Caches, store_recordings, ensure_recordings_loaded, invalidate_and_trigger_recording_update,
}
use pvr_dispatcharrai.Instance.Caches.Fresh.{lost_invalidation}
use pvr_dispatcharrai.Instance.Renewal.{RecurringRule, Occurrence, renew_recurring_rules}
use pvr_dispatcharrai.Instance.Renewal.Due.{due, renew_recurring_rules-due}

abbrev applied : Applied
applied = record {
  last_applied_config = record {
    host = codes "h";
    port = pos 9191;
    use_https = false;
    username = codes "u";
    password = codes "p";
    verify_ssl = true;
    timeout_seconds = pos 30;
    api_key = [];
  };
  live_timeshift_mode = pos 0;
  channel_refresh_hours = pos 12;
  epg_refresh_hours = pos 4;
  enable_catchup_ffmpegdirect_seek = false;
  recording_refresh_minutes = pos 5;
  recurring_rule_utc_offset_minutes = pos 0;
  debug_logging = false;
  enable_realtime_updates = false;
  sent_offsets = [];
  wakes = 0;
}

abbrev value_of : ℤ → SettingValue
value_of n = record { get_string = []; get_int = n; get_boolean = true }

abbrev defaults : Text → ℤ → ℤ
defaults name d = d

abbrev port_name : Text
port_name = codes "port"

on_addon_setting_changed_lem_example :
    let first = on_addon_setting_changed defaults port_name (value_of (pos 80)) applied in
    KeptUnless first.0 applied first.1
    × ((on_addon_setting_changed defaults port_name (value_of (pos 80)) first.1).0 ≡ status_ok)
on_addon_setting_changed_lem_example =
    on_addon_setting_changed_lem defaults defaults port_name (value_of (pos 80)) applied

-- The first notice of another port asks for a restart.
restarts :
    (on_addon_setting_changed defaults port_name (value_of (pos 80)) applied).0 ≡ need_restart
unfolding on_addon_setting_changed
restarts = refl

abbrev rules : List RecurringRule
rules =
    record { rule_id = pos 1; end_date = pos 1000000; enabled = true }
    ∷ record { rule_id = pos 2; end_date = pos 9000000; enabled = true }
    ∷ record { rule_id = pos 3; end_date = pos 5; enabled = true }
    ∷ []

abbrev recordings : List Occurrence
recordings =
    record {
      recurring_rule_id = pos 3;
      start_time = pos 0;
      is_in_progress = true;
      is_upcoming = false;
    }
    ∷ []

renew_recurring_rules-due_example :
    (renew_recurring_rules (some rules) (some recordings) (pos 10) ≡ due (pos 10) recordings rules)
    × (renew_recurring_rules (some rules) none (pos 10) ≡ [])
renew_recurring_rules-due_example = renew_recurring_rules-due rules recordings (pos 10)

-- The rule that ends late and the one that records are left.
renews_one :
    renew_recurring_rules (some rules) (some recordings) (pos 10) ≡ (pos 1, pos 2592010) ∷ []
unfolding renew_recurring_rules ◌+ℤ◌ ◌-ℤ◌
renews_one = refl

-- A recording is a number here.
abbrev cold : Caches ℕ ℕ ℕ
cold = record {
  channels = [];
  groups = [];
  channels_loaded_at = none;
  epg_by_channel_number = [];
  epg_loaded_at = none;
  cached_recordings = [];
  recordings_cached_at = none;
  cached_timer_rules = [];
  cached_recurring_rules = [];
  timer_rules_cached_at = none;
  recording_updates = 0;
  timer_updates = 0;
}

lost_invalidation_example :
    (ensure_recordings_loaded 9
        (some (2 ∷ []))
        (invalidate_and_trigger_recording_update (store_recordings 5 (1 ∷ []) cold))
      ≡ (
        true,
        store_recordings 9
            (2 ∷ [])
            (invalidate_and_trigger_recording_update (store_recordings 5 (1 ∷ []) cold)),
      ))
    × (ensure_recordings_loaded 9
          (some (2 ∷ []))
          (store_recordings 5 (1 ∷ []) (invalidate_and_trigger_recording_update cold))
        ≡ (false, store_recordings 5 (1 ∷ []) (invalidate_and_trigger_recording_update cold)))
lost_invalidation_example = lost_invalidation 5 9 (1 ∷ []) (2 ∷ []) cold (omega arith)

abbrev at_start : Realtime
at_start = record { backoff_seconds = 2; updates = 0 }

abbrev no_event : Text → Option Text
no_event m = none

one_failure : Reaches no_event at_start (record at_start { backoff_seconds = 4 })
unfolding round
one_failure = then_round no_token timed_up here refl

backoff-IsBounded_example :
    (2 ≤ (attempt no_event no_token (record at_start { backoff_seconds = 4 })).backoff_seconds)
    × ((attempt no_event no_token (record at_start { backoff_seconds = 4 })).backoff_seconds ≤ 60)
    × ((attempt no_event
          (connected_to (silent ∷ broken ∷ []))
          (record at_start { backoff_seconds = 4 })).backoff_seconds
        ≡ 2)
backoff-IsBounded_example =
    backoff-IsBounded no_event 0 (record at_start { backoff_seconds = 4 }) no_token
      (silent ∷ broken ∷ []) one_failure

-- A recording has started, and then the connection breaks.
hears_one :
    round
      (λ m. some m)
      (connected_to (told (codes "recording_started") ∷ broken ∷ []))
      timed_up
      at_start
    ≡ some (record { backoff_seconds = 4; updates = 1 })
unfolding round
hears_one = refl
