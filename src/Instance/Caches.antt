-- ===== src/Instance/Caches.antt =====
-- What PVRDispatcharr keeps of the server: EnsureChannelsLoaded, EnsureEpgLoaded,
-- EnsureRecordingsLoaded, EnsureTimerRulesLoaded, FindChannelByUid, and
-- InvalidateAndTriggerRecordingUpdate and InvalidateAndTriggerTimerUpdate.
pub mod Fresh
use pvr_dispatcharrai.Prelude.{
  ℕ, zero, suc, ◌+◌, ◌*◌, Bool, true, false, ltb, ◌||◌, if◌then◌else◌, Option, none, some, List, [],
  ◌∷◌, ℤ, eqb_ℤ, map,
}
use pvr_dispatcharrai.Prelude.Text.{Text}
use pvr_dispatcharrai.Time.{Calendar}
use pvr_dispatcharrai.XmlTv.{Xml, Guide, parse}

-- What is used of a Channel and of a ChannelGroup.
pub record Channel : Type 0 where
  pub channel_id : ℤ
  pub group_id : ℤ

pub record ChannelGroup : Type 0 where
  pub group_own_id : ℤ

-- The members that cache. A time is in nanoseconds, none for one never set.
pub record Caches (Recording Series Rule : Type 0) : Type 0 where
  pub channels : List Channel
  pub groups : List ChannelGroup
  pub channels_loaded_at : Option ℕ
  pub epg_by_channel_number : Guide
  pub epg_loaded_at : Option ℕ
  pub cached_recordings : List Recording
  pub recordings_cached_at : Option ℕ
  pub cached_timer_rules : List Series
  pub cached_recurring_rules : List Rule
  pub timer_rules_cached_at : Option ℕ
  pub recording_updates : ℕ
  pub timer_updates : ℕ

abbrev pub nanoseconds : ℕ
nanoseconds = 1000000000

abbrev pub cache_ttl_seconds : ℕ
cache_ttl_seconds = 2

-- A cache that was never loaded, or longer ago than this.
abbrev pub is_stale : ℕ → Option ℕ → ℕ → Bool
is_stale now none limit = true
is_stale now (some loaded_at) limit = ltb (loaded_at + limit) now

-- The members after a load, if there is a need and it succeeds.
abbrev pub load_if {ℓ} : {A : Type ℓ} → Bool → Option A → A → Bool × A
load_if false loaded s = (false, s)
load_if true none s = (false, s)
load_if true (some t) s = (true, t)

unfoldable pub has_member : List Channel → ChannelGroup → Bool
has_member [] g = false
has_member (ch ∷ chs) g =
    let rest = has_member chs g in if eqb_ℤ ch.group_id g.group_own_id then true else rest

-- The groups that have a channel.
unfoldable pub groups_with_channels : List Channel → List ChannelGroup → List ChannelGroup
unfolding has_member
groups_with_channels chs [] = []
groups_with_channels chs (g ∷ gs) =
    let rest = groups_with_channels chs gs in if has_member chs g then g ∷ rest else rest

-- The groups that were read, none if the request failed.
abbrev pub or_none {ℓ} : {A : Type ℓ} → Option (List A) → List A
or_none none = []
or_none (some xs) = xs

-- FindChannelByUid.
unfoldable pub find_channel_by_uid : List Channel → ℤ → Option Channel
find_channel_by_uid [] uid = none
find_channel_by_uid (ch ∷ chs) uid =
    let rest = find_channel_by_uid chs uid in if eqb_ℤ ch.channel_id uid then some ch else rest

module _ {Recording Series Rule : Type 0} where
  abbrev pub store_channels :
      ℕ
      → Option (List Channel)
      → Option (List ChannelGroup)
      → Caches Recording Series Rule
      → Option (Caches Recording Series Rule)
  store_channels now none groups s = none
  store_channels now (some chs) groups s = some (record s {
    channels = chs;
    groups = groups_with_channels chs (or_none groups);
    channels_loaded_at = some now;
  })

  -- EnsureChannelsLoaded, with the answers of GetChannels and GetChannelGroups.
  unfoldable pub ensure_channels_loaded :
      ℕ
      → ℕ
      → Option (List Channel)
      → Option (List ChannelGroup)
      → Caches Recording Series Rule
      → Bool × Caches Recording Series Rule
  unfolding groups_with_channels
  ensure_channels_loaded refresh_hours now chs groups s =
      load_if (is_stale now s.channels_loaded_at (refresh_hours * 3600 * nanoseconds))
        (store_channels now chs groups s) s

  abbrev pub store_guide :
      ℕ → Bool × Guide → Caches Recording Series Rule → Option (Caches Recording Series Rule)
  store_guide now (false, guide) s = none
  store_guide now (true, guide) s =
      some (record s { epg_by_channel_number = guide; epg_loaded_at = some now })

  abbrev pub parse_guide :
      {Node : Type 0}
      → Xml Node
      → Calendar
      → ℕ
      → Option Text
      → Caches Recording Series Rule
      → Option (Caches Recording Series Rule)
  parse_guide x c now none s = none
  parse_guide x c now (some xml) s = store_guide now (parse x c xml []) s

  -- EnsureEpgLoaded, with the answer of GetXmlTvGuide.
  unfoldable pub ensure_epg_loaded :
      {Node : Type 0}
      → Xml Node
      → Calendar
      → ℕ
      → ℕ
      → Option Text
      → Caches Recording Series Rule
      → Bool × Caches Recording Series Rule
  unfolding parse
  ensure_epg_loaded x c refresh_hours now xml s =
      load_if (is_stale now s.epg_loaded_at (refresh_hours * 3600 * nanoseconds))
        (parse_guide x c now xml s) s

  -- The last lines of EnsureRecordingsLoaded: `now` was read at its start.
  unfoldable pub store_recordings :
      ℕ → List Recording → Caches Recording Series Rule → Caches Recording Series Rule
  store_recordings now recs s = record s {
    cached_recordings = recs;
    recordings_cached_at = some now;
  }

  abbrev pub stored :
      ℕ
      → Option (List Recording)
      → Caches Recording Series Rule
      → Option (Caches Recording Series Rule)
  stored now none s = none
  stored now (some recs) s = some (store_recordings now recs s)

  -- EnsureRecordingsLoaded, with the answer of GetRecordings.
  unfoldable pub ensure_recordings_loaded :
      ℕ
      → Option (List Recording)
      → Caches Recording Series Rule
      → Bool × Caches Recording Series Rule
  unfolding store_recordings
  ensure_recordings_loaded now recs s =
      load_if (is_stale now s.recordings_cached_at (cache_ttl_seconds * nanoseconds))
        (stored now recs s) s

  -- EnsureTimerRulesLoaded, with the rules that were read, none where a request failed.
  unfoldable pub ensure_timer_rules_loaded :
      ℕ
      → List Series
      → List Rule
      → Caches Recording Series Rule
      → Bool × Caches Recording Series Rule
  ensure_timer_rules_loaded now series rules s =
      load_if (is_stale now s.timer_rules_cached_at (cache_ttl_seconds * nanoseconds))
        (some (record s {
          cached_timer_rules = series;
          cached_recurring_rules = rules;
          timer_rules_cached_at = some now;
        }))
        s

  -- InvalidateAndTriggerRecordingUpdate.
  unfoldable pub invalidate_and_trigger_recording_update :
      Caches Recording Series Rule → Caches Recording Series Rule
  invalidate_and_trigger_recording_update s = record s {
    recordings_cached_at = none;
    recording_updates = suc s.recording_updates;
  }

  -- InvalidateAndTriggerTimerUpdate.
  unfoldable pub invalidate_and_trigger_timer_update :
      Caches Recording Series Rule → Caches Recording Series Rule
  invalidate_and_trigger_timer_update s = record s {
    recordings_cached_at = none;
    timer_rules_cached_at = none;
    timer_updates = suc s.timer_updates;
  }
