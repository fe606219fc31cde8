-- ===== src/Time/Zones/Changes.antt =====
-- When the daylight-saving rules change, against the starts of the months.
use pvr_dispatcharrai.Prelude.{
  ℕ, suc, ◌+◌, ◌-◌, ◌*◌, ◌≤◌, ◌<◌, ◌≡◌, sym, ap, subst, ◌∙◌, ℤ, pos, negsuc, pos_part, neg_part,
  ◌+ℤ◌, ◌-ℤ◌, ◌≤ℤ◌, +ℤ_parts, -ℤ_parts, arith,
}
use pvr_dispatcharrai.Time.{Calendar, scale, tm_at}
use pvr_dispatcharrai.Time.Zones.{
  nth_weekday_of_month, last_day_of_month, last_weekday_of_month, us_spring, us_fall, eu_change,
}
use pvr_dispatcharrai.Time.Zones.Weekdays.{
  AdvancesWeekdays, nth_weekday_of_month_lem, last_weekday_of_month_lem,
}

-- The start of a month.
abbrev pub month_start : Calendar → ℤ → ℕ → ℤ
month_start c year month0 = c.portable_time_gm (tm_at year month0 1 0)

-- Days have 86400 seconds, and hours 3600.
abbrev pub CountsSeconds : Calendar → Type 0
CountsSeconds c =
    (year : ℤ) (month0 days hours : ℕ)
    → c.portable_time_gm (tm_at year month0 (suc days) hours)
      ≡ month_start c year month0 +ℤ pos (days * 86400 + hours * 3600)

-- March has 31 days, the half year from April on 183, October 31 and November 30.
abbrev pub HasMonths : Calendar → ℤ → Type 0
HasMonths c year =
    (month_start c year 3 ≡ month_start c year 2 +ℤ pos (31 * 86400))
    × (month_start c year 9 ≡ month_start c year 3 +ℤ pos (183 * 86400))
    × (month_start c year 10 ≡ month_start c year 9 +ℤ pos (31 * 86400))
    × (month_start c year 11 ≡ month_start c year 10 +ℤ pos (30 * 86400))

-- West of Greenwich, by 12 hours at most.
abbrev pub IsWest : ℤ → Type 0
IsWest z = (pos_part z ≡ 0) × (neg_part z ≤ 720)

scale_parts :
    (z : ℤ) → pos_part (scale 60 z) + 60 * neg_part z ≡ neg_part (scale 60 z) + 60 * pos_part z
scale_parts (pos n) = omega arith
scale_parts (negsuc n) = ground arith

shifted :
    (a z : ℤ) (k m : ℕ)
    → (pos_part z ≤ 60 + neg_part z) × (neg_part z ≤ 720)
    → 3600 ≤ k
    → k + 43200 ≤ m
    → (a ≤ℤ (a +ℤ pos k) -ℤ scale 60 z) × ((a +ℤ pos k) -ℤ scale 60 z ≤ℤ a +ℤ pos m)
shifted a z k m h low l =
    let minutes = scale_parts z in
    (
      omega (arith, h, minutes, -ℤ_parts (a +ℤ pos k) (scale 60 z), +ℤ_parts a (pos k)),
      omega (
        arith,
        h,
        minutes,
        -ℤ_parts (a +ℤ pos k) (scale 60 z),
        +ℤ_parts a (pos k),
        +ℤ_parts a (pos m),
      ),
    )

-- The weekday rules name days of these months.
pub us_spring-bounds :
    (c : Calendar) (year z : ℤ)
    → AdvancesWeekdays c
    → CountsSeconds c
    → IsWest z
    → (month_start c year 2 ≤ℤ us_spring c year z)
      × (us_spring c year z ≤ℤ month_start c year 2 +ℤ pos (31 * 86400))
unfolding us_spring
us_spring-bounds c year z w s h =
    let n = nth_weekday_of_month c year 2 0 2 in
    let day = nth_weekday_of_month_lem c w year 2 0 2 (omega arith) (omega arith) in
    let at =
      ap (λ k. c.portable_time_gm (tm_at year 2 k 2)) {x = n} {y = suc (n - 1)}
        (omega (arith, day.1))
      ∙ s year 2 (n - 1) 2 in
    subst
      (λ a.
        (month_start c year 2 ≤ℤ a -ℤ scale 60 z)
        × (a -ℤ scale 60 z ≤ℤ month_start c year 2 +ℤ pos (31 * 86400)))
      (sym at)
      (shifted (month_start c year 2) z ((n - 1) * 86400 + 2 * 3600) (31 * 86400)
        (omega (arith, h.0), h.1) (omega arith) (omega (arith, day.2)))

neg_part-hour : (z : ℤ) → neg_part (z +ℤ pos 60) ≤ neg_part z
unfolding ◌+ℤ◌
neg_part-hour z = ground arith

west_hour :
    (z : ℤ)
    → IsWest z
    → (pos_part (z +ℤ pos 60) ≤ 60 + neg_part (z +ℤ pos 60)) × (neg_part (z +ℤ pos 60) ≤ 720)
west_hour z h = (omega (arith, h.0, +ℤ_parts z (pos 60)), omega (arith, h.1, neg_part-hour z))

pub us_fall-bounds :
    (c : Calendar) (year z : ℤ)
    → AdvancesWeekdays c
    → CountsSeconds c
    → IsWest z
    → (month_start c year 10 ≤ℤ us_fall c year z)
      × (us_fall c year z ≤ℤ month_start c year 10 +ℤ pos (30 * 86400))
unfolding us_fall
us_fall-bounds c year z w s h =
    let n = nth_weekday_of_month c year 10 0 1 in
    let day = nth_weekday_of_month_lem c w year 10 0 1 (omega arith) (omega arith) in
    let at =
      ap (λ k. c.portable_time_gm (tm_at year 10 k 2)) {x = n} {y = suc (n - 1)}
        (omega (arith, day.1))
      ∙ s year 10 (n - 1) 2 in
    subst
      (λ a.
        (month_start c year 10 ≤ℤ a -ℤ scale 60 (z +ℤ pos 60))
        × (a -ℤ scale 60 (z +ℤ pos 60) ≤ℤ month_start c year 10 +ℤ pos (30 * 86400)))
      (sym at)
      (shifted (month_start c year 10) (z +ℤ pos 60) ((n - 1) * 86400 + 2 * 3600) (30 * 86400)
        (west_hour z h) (omega arith) (omega (arith, day.2)))

pub eu_change-bounds :
    (c : Calendar) (year : ℤ) (month0 : ℕ)
    → AdvancesWeekdays c
    → CountsSeconds c
    → last_day_of_month year month0 ≡ 31
    → month0 < 12
    → (month_start c year month0 ≤ℤ eu_change c year month0)
      × (eu_change c year month0 ≤ℤ month_start c year month0 +ℤ pos (31 * 86400))
unfolding eu_change
eu_change-bounds c year month0 w s e small =
    let n = last_weekday_of_month c year month0 0 in
    let start = month_start c year month0 in
    let day = last_weekday_of_month_lem c w year month0 0 (omega arith) small in
    let at =
      ap (λ k. c.portable_time_gm (tm_at year month0 k 1)) {x = n} {y = suc (n - 1)}
        (omega (arith, e, day.1))
      ∙ s year month0 (n - 1) 1 in
    subst (λ a. (start ≤ℤ a) × (a ≤ℤ start +ℤ pos (31 * 86400))) (sym at)
      (
        omega (arith, +ℤ_parts start (pos ((n - 1) * 86400 + 1 * 3600))),
        omega (
          arith,
          e,
          day.2,
          +ℤ_parts start (pos ((n - 1) * 86400 + 1 * 3600)),
          +ℤ_parts start (pos (31 * 86400)),
        ),
      )
