-- ===== src/Time/Tests.antt =====
-- The Gregorian calendar, as an instance of the calendar of the C library, and the theorems of
-- this component at it.
use pvr_dispatcharrai.Prelude.{
  ℕ, suc, ◌+◌, ◌-◌, ◌*◌, ◌/◌, ◌%◌, ◌<◌, ◌≡◌, refl, ap, ◌∙◌, inl, ◌&&◌, leb, if◌then◌else◌, some,
  List, [], ◌∷◌, get_or, ℤ, pos, negsuc, sub_ℕ, pos_part, neg_part, ◌+ℤ◌, ◌-ℤ◌, arith,
}
use pvr_dispatcharrai.Prelude.Text.{codes}
use pvr_dispatcharrai.Time.{Tm, Calendar, tm_at, time_from_iso}
use pvr_dispatcharrai.Time.Day.{time_of_day_string, seconds_since_midnight_from_string}
use pvr_dispatcharrai.Time.Day.RoundTrip.{seconds_since_midnight-time_of_day_string}
use pvr_dispatcharrai.Time.Zones.{
  weekday_of, is_leap, nth_weekday_of_month, us_canada, compute_known_zone_offset_minutes,
}
use pvr_dispatcharrai.Time.Zones.Weekdays.{AdvancesWeekdays}
use pvr_dispatcharrai.Time.Zones.Changes.{CountsSeconds, HasMonths}
use pvr_dispatcharrai.Time.Zones.Seasons.{zone_named, offset-in_summer, offset-in_winter}

-- The days before a month in a year that is not a leap year.
abbrev days_before : List ℕ
days_before = 0 ∷ 31 ∷ 59 ∷ 90 ∷ 120 ∷ 151 ∷ 181 ∷ 212 ∷ 243 ∷ 273 ∷ 304 ∷ 334 ∷ []

-- The days from the year 0 to a month, with 1970-01-01 as day 719528.
days_to : ℤ → ℕ → ℕ
days_to year month0 =
    let y = pos_part year in
    let before = y - 1 in
    let leap_day = if leb 2 month0 && is_leap year then 1 else 0 in
    365 * y + before / 4 - before / 100 + before / 400 + get_or days_before month0 0 + leap_day

epoch : ℕ
epoch = 62167219200

seconds_of : Tm → ℕ
seconds_of tm =
    (days_to (tm.tm_year +ℤ pos 1900) (pos_part tm.tm_mon) + pos_part tm.tm_mday) * 86400
    + (pos_part tm.tm_hour * 3600 + pos_part tm.tm_min * 60 + pos_part tm.tm_sec)

abbrev gregorian : Calendar
gregorian = record {
  portable_time_gm = λ tm. sub_ℕ (seconds_of tm) epoch;
  gm_time_utc = λ t.
      let days = (pos_part t + epoch - neg_part t) / 86400 in
      record {
        tm_year = pos (days * 400 / 146097) -ℤ pos 1900;
        tm_mon = pos 0;
        tm_mday = pos 0;
        tm_hour = pos 0;
        tm_min = pos 0;
        tm_sec = pos 0;
        tm_wday = (days + 6) % 7;
      };
}

from_epoch : (a e : ℕ) → pos_part (sub_ℕ a e) + e - neg_part (sub_ℕ a e) ≡ a
from_epoch a e = ground arith

weekday_is :
    (year : ℤ) (month0 mday : ℕ)
    → weekday_of gregorian year month0 mday
      ≡ (seconds_of (tm_at year month0 mday 0) / 86400 + 6) % 7
weekday_is year month0 mday =
    ap (λ k. (k / 86400 + 6) % 7) (from_epoch (seconds_of (tm_at year month0 mday 0)) epoch)

gregorian-AdvancesWeekdays : AdvancesWeekdays gregorian
unfolding seconds_of
gregorian-AdvancesWeekdays year month0 mday =
    omega (arith, weekday_is year month0 (suc mday), weekday_is year month0 mday)

later : (a k e : ℕ) → sub_ℕ (a + k) e ≡ sub_ℕ a e +ℤ pos k
unfolding ◌+ℤ◌
later a k e = ground arith

gregorian-CountsSeconds : CountsSeconds gregorian
unfolding seconds_of
gregorian-CountsSeconds year month0 days hours =
    let first = seconds_of (tm_at year month0 1 0) in
    ap (λ k. sub_ℕ k epoch) {x = seconds_of (tm_at year month0 (suc days) hours)}
      {y = first + (days * 86400 + hours * 3600)} (omega arith)
    ∙ later first (days * 86400 + hours * 3600) epoch

gregorian-HasMonths : HasMonths gregorian (pos 2026)
unfolding days_to epoch ◌+ℤ◌ ◌-ℤ◌ seconds_of
gregorian-HasMonths = (refl, refl, refl, refl)

abbrev july : ℤ
july = pos 1782864000

abbrev january : ℤ
january = pos 1768003200

offset-in_summer_example :
    compute_known_zone_offset_minutes gregorian (codes "America/New_York") july
    ≡ some (negsuc 299 +ℤ pos 60)
unfolding zone_named days_to epoch ◌+ℤ◌ ◌-ℤ◌ seconds_of
offset-in_summer_example =
    offset-in_summer gregorian (codes "America/New_York") (codes "America/New_York") july
      (negsuc 299) us_canada gregorian-AdvancesWeekdays gregorian-CountsSeconds gregorian-HasMonths
      refl refl (omega arith) (omega arith)

offset-in_winter_example :
    compute_known_zone_offset_minutes gregorian (codes "America/New_York") january
    ≡ some (negsuc 299)
unfolding zone_named days_to epoch ◌+ℤ◌ ◌-ℤ◌ seconds_of
offset-in_winter_example =
    offset-in_winter gregorian (codes "America/New_York") (codes "America/New_York") january
      (negsuc 299) us_canada gregorian-AdvancesWeekdays gregorian-CountsSeconds gregorian-HasMonths
      refl (inl (omega arith))

seconds_since_midnight-time_of_day_string_example :
    (r : ℕ) × (seconds_since_midnight_from_string (time_of_day_string (negsuc 59)) ≡ pos r)
    × (r < 86400)
    × (pos_part (negsuc 59) % 86400 ≡ (neg_part (negsuc 59) + r) % 86400)
seconds_since_midnight-time_of_day_string_example =
    seconds_since_midnight-time_of_day_string (negsuc 59)

-- A minute before midnight.
prints_the_clock : time_of_day_string (negsuc 59) ≡ codes "23:59:00"
unfolding time_of_day_string
prints_the_clock = refl

march_has_second_sunday : nth_weekday_of_month gregorian (pos 2026) 2 0 2 ≡ 8
unfolding nth_weekday_of_month days_to epoch ◌+ℤ◌ ◌-ℤ◌ seconds_of
march_has_second_sunday = refl

-- A Dispatcharr time.
reads_a_time : time_from_iso gregorian (codes "2026-07-01T00:00:00Z") ≡ july
unfolding time_from_iso days_to epoch ◌+ℤ◌ ◌-ℤ◌ seconds_of
reads_a_time = refl
