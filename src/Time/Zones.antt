-- ===== src/Time/Zones.antt =====
-- The daylight-saving rules and the table of known zones, and ComputeKnownZoneOffsetMinutes.
pub mod Weekdays
pub mod Changes
pub mod Seasons
use pvr_dispatcharrai.Prelude.{
  ℕ, zero, suc, ◌+◌, ◌-◌, ◌*◌, ◌%◌, Bool, true, false, ◌==◌, ◌&&◌, ◌||◌, not, if◌then◌else◌, Option,
  none, some, List, [], ◌∷◌, get_or, ℤ, pos, negsuc, sub_ℕ, pos_part, neg_part, ◌+ℤ◌, ◌-ℤ◌, leb_ℤ,
  ltb_ℤ,
}
use pvr_dispatcharrai.Prelude.Text.{Text, codes, text_eq}
use pvr_dispatcharrai.Time.{Tm, Calendar, scale, tm_at}

-- The weekday that `gmtime` tells of the date that `timegm` makes of a day of a month.
abbrev pub weekday_of : Calendar → ℤ → ℕ → ℕ → ℕ
weekday_of c year month0 mday =
    (c.gm_time_utc (c.portable_time_gm (tm_at year month0 mday 0))).tm_wday

-- NthWeekdayOfMonth, for weekdays below 7.
unfoldable pub nth_weekday_of_month : Calendar → ℤ → ℕ → ℕ → ℕ → ℕ
nth_weekday_of_month c year month0 weekday n =
    let offset = (weekday + 7 - weekday_of c year month0 1) % 7 in 1 + offset + (n - 1) * 7

abbrev pub days_in_month : List ℕ
days_in_month = 31 ∷ 28 ∷ 31 ∷ 30 ∷ 31 ∷ 30 ∷ 31 ∷ 31 ∷ 30 ∷ 31 ∷ 30 ∷ 31 ∷ []

-- `year % k == 0`.
abbrev pub divides : ℕ → ℤ → Bool
divides k year = (pos_part year + neg_part year) % k == 0

abbrev pub is_leap : ℤ → Bool
is_leap year = (divides 4 year && not (divides 100 year)) || divides 400 year

unfoldable pub last_day_of_month : ℤ → ℕ → ℕ
last_day_of_month year month0 =
    if (month0 == 1) && is_leap year then 29 else get_or days_in_month month0 0

-- LastWeekdayOfMonth.
unfoldable pub last_weekday_of_month : Calendar → ℤ → ℕ → ℕ → ℕ
unfolding last_day_of_month
last_weekday_of_month c year month0 weekday =
    let days = last_day_of_month year month0 in
    days - (weekday_of c year month0 days + 7 - weekday) % 7

abbrev pub year_of : Calendar → ℤ → ℤ
year_of c now_utc = (c.gm_time_utc now_utc).tm_year +ℤ pos 1900

-- The moments at which IsUsCanadaDstInEffect changes.
unfoldable pub us_spring : Calendar → ℤ → ℤ → ℤ
unfolding nth_weekday_of_month ◌-ℤ◌
us_spring c year standard_offset_minutes =
    c.portable_time_gm (tm_at year 2 (nth_weekday_of_month c year 2 0 2) 2)
    -ℤ scale 60 standard_offset_minutes

unfoldable pub us_fall : Calendar → ℤ → ℤ → ℤ
unfolding nth_weekday_of_month ◌-ℤ◌ ◌+ℤ◌
us_fall c year standard_offset_minutes =
    c.portable_time_gm (tm_at year 10 (nth_weekday_of_month c year 10 0 1) 2)
    -ℤ scale 60 (standard_offset_minutes +ℤ pos 60)

-- IsUsCanadaDstInEffect.
unfoldable pub is_us_canada_dst_in_effect : Calendar → ℤ → ℤ → Bool
unfolding us_spring us_fall
is_us_canada_dst_in_effect c now_utc standard_offset_minutes =
    let year = year_of c now_utc in
    leb_ℤ (us_spring c year standard_offset_minutes) now_utc
    && ltb_ℤ now_utc (us_fall c year standard_offset_minutes)

-- The moments at which IsEuDstInEffect changes, in March and October.
unfoldable pub eu_change : Calendar → ℤ → ℕ → ℤ
unfolding last_weekday_of_month
eu_change c year month0 =
    c.portable_time_gm (tm_at year month0 (last_weekday_of_month c year month0 0) 1)

-- IsEuDstInEffect.
unfoldable pub is_eu_dst_in_effect : Calendar → ℤ → Bool
unfolding eu_change
is_eu_dst_in_effect c now_utc =
    let year = year_of c now_utc in
    leb_ℤ (eu_change c year 2) now_utc && ltb_ℤ now_utc (eu_change c year 9)

pub data DstFamily : Type 0 where
  no_dst us_canada eu : DstFamily

pub data KnownTimeZone : Type 0 where
  known_zone : Text → ℤ → DstFamily → KnownTimeZone

-- kKnownTimeZones.
abbrev pub known_time_zones : List KnownTimeZone
known_time_zones =
    known_zone (codes "America/New_York") (negsuc 299) us_canada
    ∷ known_zone (codes "America/Chicago") (negsuc 359) us_canada
    ∷ known_zone (codes "America/Denver") (negsuc 419) us_canada
    ∷ known_zone (codes "America/Los_Angeles") (negsuc 479) us_canada
    ∷ known_zone (codes "America/Anchorage") (negsuc 539) us_canada
    ∷ known_zone (codes "America/Phoenix") (negsuc 419) no_dst
    ∷ known_zone (codes "Pacific/Honolulu") (negsuc 599) no_dst
    ∷ known_zone (codes "America/Detroit") (negsuc 299) us_canada
    ∷ known_zone (codes "America/Indiana/Indianapolis") (negsuc 299) us_canada
    ∷ known_zone (codes "America/Boise") (negsuc 419) us_canada
    ∷ known_zone (codes "America/Toronto") (negsuc 299) us_canada
    ∷ known_zone (codes "America/Winnipeg") (negsuc 359) us_canada
    ∷ known_zone (codes "America/Edmonton") (negsuc 419) us_canada
    ∷ known_zone (codes "America/Vancouver") (negsuc 479) us_canada
    ∷ known_zone (codes "America/Halifax") (negsuc 239) us_canada
    ∷ known_zone (codes "America/Regina") (negsuc 359) no_dst
    ∷ known_zone (codes "America/Mexico_City") (negsuc 359) no_dst
    ∷ known_zone (codes "Europe/London") (pos 0) eu
    ∷ known_zone (codes "Europe/Dublin") (pos 0) eu
    ∷ known_zone (codes "Europe/Lisbon") (pos 0) eu
    ∷ known_zone (codes "Europe/Paris") (pos 60) eu
    ∷ known_zone (codes "Europe/Berlin") (pos 60) eu
    ∷ known_zone (codes "Europe/Madrid") (pos 60) eu
    ∷ known_zone (codes "Europe/Rome") (pos 60) eu
    ∷ known_zone (codes "Europe/Amsterdam") (pos 60) eu
    ∷ known_zone (codes "Europe/Brussels") (pos 60) eu
    ∷ known_zone (codes "Europe/Vienna") (pos 60) eu
    ∷ known_zone (codes "Europe/Zurich") (pos 60) eu
    ∷ known_zone (codes "Europe/Warsaw") (pos 60) eu
    ∷ known_zone (codes "Europe/Prague") (pos 60) eu
    ∷ known_zone (codes "Europe/Stockholm") (pos 60) eu
    ∷ known_zone (codes "Europe/Copenhagen") (pos 60) eu
    ∷ known_zone (codes "Europe/Oslo") (pos 60) eu
    ∷ known_zone (codes "Europe/Budapest") (pos 60) eu
    ∷ known_zone (codes "Europe/Helsinki") (pos 120) eu
    ∷ known_zone (codes "Europe/Athens") (pos 120) eu
    ∷ known_zone (codes "Europe/Bucharest") (pos 120) eu
    ∷ known_zone (codes "Europe/Riga") (pos 120) eu
    ∷ known_zone (codes "Europe/Vilnius") (pos 120) eu
    ∷ known_zone (codes "Europe/Sofia") (pos 120) eu
    ∷ known_zone (codes "Europe/Kyiv") (pos 120) eu
    ∷ known_zone (codes "Asia/Tokyo") (pos 540) no_dst
    ∷ known_zone (codes "Asia/Shanghai") (pos 480) no_dst
    ∷ known_zone (codes "Asia/Hong_Kong") (pos 480) no_dst
    ∷ known_zone (codes "Asia/Singapore") (pos 480) no_dst
    ∷ known_zone (codes "Asia/Kolkata") (pos 330) no_dst
    ∷ known_zone (codes "Asia/Dubai") (pos 240) no_dst
    ∷ known_zone (codes "Asia/Karachi") (pos 300) no_dst
    ∷ known_zone (codes "Africa/Johannesburg") (pos 120) no_dst
    ∷ known_zone (codes "Africa/Lagos") (pos 60) no_dst
    ∷ known_zone (codes "UTC") (pos 0) no_dst
    ∷ known_zone (codes "Etc/UTC") (pos 0) no_dst
    ∷ []

unfoldable pub is_in_effect : DstFamily → Calendar → ℤ → ℤ → Bool
unfolding is_us_canada_dst_in_effect is_eu_dst_in_effect
is_in_effect no_dst c now_utc standard_offset = false
is_in_effect us_canada c now_utc standard_offset =
    is_us_canada_dst_in_effect c now_utc standard_offset
is_in_effect eu c now_utc standard_offset = is_eu_dst_in_effect c now_utc

unfoldable pub offset_in : List KnownTimeZone → Calendar → Text → ℤ → Option ℤ
unfolding text_eq is_in_effect ◌+ℤ◌
offset_in [] c name now_utc = none
offset_in (known_zone iana_name standard family ∷ zones) c name now_utc =
    let later = offset_in zones c name now_utc in
    let daylight = is_in_effect family c now_utc standard in
    if text_eq name iana_name
    then some (if daylight then standard +ℤ pos 60 else standard)
    else later

-- ComputeKnownZoneOffsetMinutes.
unfoldable pub compute_known_zone_offset_minutes : Calendar → Text → ℤ → Option ℤ
unfolding offset_in
compute_known_zone_offset_minutes = offset_in known_time_zones
