-- ===== src/Time/Zones/Weekdays.antt =====
-- The days that the daylight-saving rules name.
use pvr_dispatcharrai.Prelude.{
  ℕ, zero, suc, ◌+◌, ◌-◌, ◌*◌, ◌%◌, ◌≤◌, ◌<◌, ◌≡◌, ap, ◌∙◌, ◌==◌, ◌&&◌, if_both, get_or, length,
  List, [], ◌∷◌, ℤ, arith,
}
use pvr_dispatcharrai.Time.{Calendar}
use pvr_dispatcharrai.Time.Zones.{
  weekday_of, is_leap, days_in_month, nth_weekday_of_month, last_day_of_month,
  last_weekday_of_month,
}

-- `timegm` takes a day of a month past its end as one of a month after it, and the weekday of the
-- next day is the next weekday.
abbrev pub AdvancesWeekdays : Calendar → Type 0
AdvancesWeekdays c =
    (year : ℤ) (month0 mday : ℕ)
    → weekday_of c year month0 (suc mday) ≡ (weekday_of c year month0 mday + 1) % 7

weekday_after :
    (c : Calendar)
    → AdvancesWeekdays c
    → (year : ℤ) (month0 mday n : ℕ)
    → weekday_of c year month0 (suc mday + n) ≡ (weekday_of c year month0 (suc mday) + n) % 7
weekday_after c h year month0 mday zero =
    ap (weekday_of c year month0) {x = suc mday + 0} {y = suc mday} (omega arith)
    ∙ omega (arith, h year month0 mday)
weekday_after c h year month0 mday (suc n) =
    ap (weekday_of c year month0) {x = suc mday + suc n} {y = suc (suc mday + n)} (omega arith)
    ∙ h year month0 (suc mday + n)
    ∙ omega (arith, weekday_after c h year month0 mday n)

-- NthWeekdayOfMonth gives a day of the weekday, in the n-th week of days of the month.
pub nth_weekday_of_month_lem :
    (c : Calendar)
    → AdvancesWeekdays c
    → (year : ℤ) (month0 weekday n : ℕ) → weekday < 7
    → 0 < n
    → (weekday_of c year month0 (nth_weekday_of_month c year month0 weekday n) ≡ weekday)
      × (7 * n < nth_weekday_of_month c year month0 weekday n + 7)
      × (nth_weekday_of_month c year month0 weekday n ≤ 7 * n)
unfolding nth_weekday_of_month
nth_weekday_of_month_lem c h year month0 weekday n small some =
    let first = weekday_of c year month0 1 in
    let offset = (weekday + 7 - first) % 7 in
    (
      ap (weekday_of c year month0) {x = 1 + offset + (n - 1) * 7} {y = 1 + (offset + (n - 1) * 7)}
            (omega arith)
          ∙ weekday_after c h year month0 0 (offset + (n - 1) * 7)
          ∙ omega (arith, h year month0 0),
      omega arith,
      omega arith,
    )

abbrev AllFrom : ℕ → List ℕ → Type 0
AllFrom k [] = Unit {0}
AllFrom k (x ∷ xs) = (k ≤ x) × AllFrom k xs

entry-bound : (k : ℕ) (xs : List ℕ) (i : ℕ) → AllFrom k xs × (i < length xs) → k ≤ get_or xs i 0
entry-bound k [] i h = absurd (omega (arith, h.1))
entry-bound k (x ∷ xs) zero h = h.0.0
entry-bound k (x ∷ xs) (suc i) h = entry-bound k xs i (h.0.1, omega (arith, h.1))

long_months : AllFrom 7 days_in_month
long_months = ground arith

last_day_of_month-bound : (year : ℤ) (month0 : ℕ) → month0 < 12 → 7 ≤ last_day_of_month year month0
unfolding last_day_of_month
last_day_of_month-bound year month0 h =
    if_both (λ d. 7 ≤ d) ((month0 == 1) && is_leap year) {x = 29}
      {y = get_or days_in_month month0 0} (omega arith)
      (entry-bound 7 days_in_month month0 (long_months, h))

weekday_back :
    (c : Calendar)
    → AdvancesWeekdays c
    → (year : ℤ) (month0 days weekday : ℕ) → weekday < 7
    → 7 ≤ days
    → weekday_of c year month0 (days - (weekday_of c year month0 days + 7 - weekday) % 7) ≡ weekday
weekday_back c h year month0 days weekday small long =
    let diff = (weekday_of c year month0 days + 7 - weekday) % 7 in
    let before = days - diff - 1 in
    let same = ap (weekday_of c year month0) {x = suc before + diff} {y = days} (omega arith) in
    ap (weekday_of c year month0) {x = days - diff} {y = suc before} (omega arith)
    ∙ omega (arith, weekday_after c h year month0 before diff, h year month0 before, same)

-- LastWeekdayOfMonth gives a day of the weekday, among the last seven days of the month.
pub last_weekday_of_month_lem :
    (c : Calendar)
    → AdvancesWeekdays c
    → (year : ℤ) (month0 weekday : ℕ) → weekday < 7
    → month0 < 12
    → (weekday_of c year month0 (last_weekday_of_month c year month0 weekday) ≡ weekday)
      × (last_day_of_month year month0 < last_weekday_of_month c year month0 weekday + 7)
      × (last_weekday_of_month c year month0 weekday ≤ last_day_of_month year month0)
unfolding last_weekday_of_month
last_weekday_of_month_lem c h year month0 weekday small month =
    let days = last_day_of_month year month0 in
    let long = last_day_of_month-bound year month0 month in
    (weekday_back c h year month0 days weekday small long, omega (arith, long), omega arith)
