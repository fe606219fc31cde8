-- ===== src/Time/Zones/Seasons.antt =====
-- In which months ComputeKnownZoneOffsetMinutes adds the hour of daylight-saving time.
use pvr_dispatcharrai.Prelude.{
  ℕ, ◌*◌, ◌≡◌, refl, sym, ap, subst, ◌∙◌, ◌⊎◌, inl, inr, Bool, true, false, ◌&&◌, if◌then◌else◌,
  Option, none, some, List, [], ◌∷◌, ℤ, pos, ◌+ℤ◌, ◌≤ℤ◌, ◌<ℤ◌, leb_ℤ, ltb_ℤ, +ℤ_parts, arith,
}
use pvr_dispatcharrai.Prelude.Text.{Text, text_eq}
use pvr_dispatcharrai.Time.{Calendar}
use pvr_dispatcharrai.Time.Zones.{
  last_day_of_month, year_of, us_spring, us_fall, is_us_canada_dst_in_effect, eu_change,
  is_eu_dst_in_effect, DstFamily, no_dst, us_canada, eu, KnownTimeZone, known_zone,
  known_time_zones, is_in_effect, offset_in, compute_known_zone_offset_minutes,
}
use pvr_dispatcharrai.Time.Zones.Weekdays.{AdvancesWeekdays}
use pvr_dispatcharrai.Time.Zones.Changes.{
  month_start, CountsSeconds, HasMonths, IsWest, us_spring-bounds, us_fall-bounds, eu_change-bounds,
}

-- What holds of a zone of the table: those under the rule of the United States are in the west.
abbrev IsPlaced : DstFamily → ℤ → Type 0
IsPlaced us_canada z = IsWest z
IsPlaced eu z = Unit {0}
IsPlaced no_dst z = Unit {0}

abbrev pub has_dst : DstFamily → Bool
has_dst no_dst = false
has_dst us_canada = true
has_dst eu = true

between : (a now b : ℤ) → a ≤ℤ now → now <ℤ b → (leb_ℤ a now && ltb_ℤ now b) ≡ true
between a now b h k = ground arith

too_early : (a now b : ℤ) → now <ℤ a → (leb_ℤ a now && ltb_ℤ now b) ≡ false
too_early a now b h = ground arith

too_late : (a now b : ℤ) → b ≤ℤ now → (leb_ℤ a now && ltb_ℤ now b) ≡ false
too_late a now b h = ground arith

le_trans : (a b c : ℤ) → a ≤ℤ b → b ≤ℤ c → a ≤ℤ c
le_trans a b c h k = omega arith

lt_le_trans : (a b c : ℤ) → a <ℤ b → b ≤ℤ c → a <ℤ c
lt_le_trans a b c h k = omega arith

grows : (a b : ℤ) (k : ℕ) → b ≡ a +ℤ pos k → a ≤ℤ b
grows a b k e = subst (λ x. a ≤ℤ x) (sym e) (omega (arith, +ℤ_parts a (pos k)))

spring_has_31 : (year : ℤ) → last_day_of_month year 2 ≡ 31
unfolding last_day_of_month
spring_has_31 year = refl

fall_has_31 : (year : ℤ) → last_day_of_month year 9 ≡ 31
unfolding last_day_of_month
fall_has_31 year = refl

module _ (c : Calendar) (now z : ℤ) (w : AdvancesWeekdays c) (s : CountsSeconds c)
    (m : HasMonths c (year_of c now)) where
  start : ℕ → ℤ
  start = month_start c (year_of c now)

  in_effect-summer :
      (family : DstFamily)
      → IsPlaced family z
      → has_dst family ≡ true
      → start 3 ≤ℤ now
      → now <ℤ start 9
      → is_in_effect family c now z ≡ true
  unfolding is_in_effect is_us_canada_dst_in_effect is_eu_dst_in_effect start
  in_effect-summer no_dst h d from until = ground arith
  in_effect-summer us_canada h d from until =
      let y = year_of c now in
      let spring = us_spring-bounds c y z w s h in
      let fall = us_fall-bounds c y z w s h in
      between (us_spring c y z) now (us_fall c y z)
        (le_trans (us_spring c y z) (start 3) now
          (subst (λ k. us_spring c y z ≤ℤ k) (sym m.0) spring.1) from)
        (lt_le_trans now (start 9) (us_fall c y z) until (
          le_trans (start 9) (start 10) (us_fall c y z)
            (grows (start 9) (start 10) (31 * 86400) m.2) fall.0))
  in_effect-summer eu h d from until =
      let y = year_of c now in
      let spring = eu_change-bounds c y 2 w s (spring_has_31 y) (omega arith) in
      let fall = eu_change-bounds c y 9 w s (fall_has_31 y) (omega arith) in
      between (eu_change c y 2) now (eu_change c y 9)
        (le_trans (eu_change c y 2) (start 3) now
          (subst (λ k. eu_change c y 2 ≤ℤ k) (sym m.0) spring.1) from)
        (lt_le_trans now (start 9) (eu_change c y 9) until fall.0)

  in_effect-winter :
      (family : DstFamily)
      → IsPlaced family z
      → (now <ℤ start 2) ⊎ (start 11 ≤ℤ now)
      → is_in_effect family c now z ≡ false
  unfolding is_in_effect is_us_canada_dst_in_effect is_eu_dst_in_effect start
  in_effect-winter no_dst h out = refl
  in_effect-winter us_canada h (inl early) =
      let y = year_of c now in
      too_early (us_spring c y z) now (us_fall c y z)
        (lt_le_trans now (start 2) (us_spring c y z) early (us_spring-bounds c y z w s h).0)
  in_effect-winter us_canada h (inr late) =
      let y = year_of c now in
      too_late (us_spring c y z) now (us_fall c y z) (
        le_trans (us_fall c y z) (start 11) now
          (subst (λ k. us_fall c y z ≤ℤ k) (sym m.3) (us_fall-bounds c y z w s h).1) late)
  in_effect-winter eu h (inl early) =
      let y = year_of c now in
      too_early (eu_change c y 2) now (eu_change c y 9) (
        lt_le_trans now (start 2) (eu_change c y 2) early
          (eu_change-bounds c y 2 w s (spring_has_31 y) (omega arith)).0)
  in_effect-winter eu h (inr late) =
      let y = year_of c now in
      let fall = eu_change-bounds c y 9 w s (fall_has_31 y) (omega arith) in
      too_late (eu_change c y 2) now (eu_change c y 9) (
        le_trans (eu_change c y 9) (start 10) now
          (subst (λ k. eu_change c y 9 ≤ℤ k) (sym m.2) fall.1)
          (le_trans (start 10) (start 11) now (grows (start 10) (start 11) (30 * 86400) m.3) late))

-- The first zone of a name.
unfoldable pub zone_named : List KnownTimeZone → Text → Option KnownTimeZone
unfolding text_eq
zone_named [] name = none
zone_named (known_zone iana_name z family ∷ zones) name =
    let later = zone_named zones name in
    if text_eq name iana_name then some (known_zone iana_name z family) else later

abbrev AllPlaced : List KnownTimeZone → Type 0
AllPlaced [] = Unit {0}
AllPlaced (known_zone n z family ∷ zones) = IsPlaced family z × AllPlaced zones

-- The offset is that of the zone, with an hour more if the rule of the zone says so.
abbrev Found : Calendar → ℤ → Option KnownTimeZone → Option ℤ → Type 0
Found c now none o = o ≡ none
Found c now (some (known_zone n z family)) o =
    IsPlaced family z × (o ≡ some (if is_in_effect family c now z then z +ℤ pos 60 else z))

Found-or_later :
    (b : Bool) (c : Calendar) (now z : ℤ) (n : Text) (family : DstFamily)
    (zone : Option KnownTimeZone) (later : Option ℤ)
    → IsPlaced family z
    → Found c now zone later
    → Found c now
        (if b then some (known_zone n z family) else zone)
        (if b then some (if is_in_effect family c now z then z +ℤ pos 60 else z) else later)
Found-or_later true c now z n family first later p f = (p, refl)
Found-or_later false c now z n family first later p f = f

offset_in-Found :
    (zones : List KnownTimeZone) (c : Calendar) (name : Text) (now : ℤ)
    → AllPlaced zones
    → Found c now (zone_named zones name) (offset_in zones c name now)
unfolding offset_in zone_named
offset_in-Found [] c name now h = refl
offset_in-Found (known_zone n z family ∷ zones) c name now h =
    Found-or_later (text_eq name n) c now z n family (zone_named zones name)
      (offset_in zones c name now) h.0 (offset_in-Found zones c name now h.1)

all_placed : AllPlaced known_time_zones
all_placed = ground arith

offset-Found :
    (c : Calendar) (name n : Text) (now z : ℤ) (family : DstFamily)
    → zone_named known_time_zones name ≡ some (known_zone n z family)
    → Found c now (some (known_zone n z family)) (compute_known_zone_offset_minutes c name now)
unfolding compute_known_zone_offset_minutes
offset-Found c name n now z family e =
    subst (λ o. Found c now o (compute_known_zone_offset_minutes c name now)) e
      (offset_in-Found known_time_zones c name now all_placed)

-- For a zone of the table with a daylight-saving rule, from the start of April to the end of
-- September (UTC) of the year, ComputeKnownZoneOffsetMinutes gives an hour more than the standard
-- offset, on a calendar that counts days, weekdays and seconds.
pub offset-in_summer :
    (c : Calendar) (name n : Text) (now z : ℤ) (family : DstFamily)
    → AdvancesWeekdays c
    → CountsSeconds c
    → HasMonths c (year_of c now)
    → zone_named known_time_zones name ≡ some (known_zone n z family)
    → has_dst family ≡ true
    → month_start c (year_of c now) 3 ≤ℤ now
    → now <ℤ month_start c (year_of c now) 9
    → compute_known_zone_offset_minutes c name now ≡ some (z +ℤ pos 60)
unfolding start
offset-in_summer c name n now z family w s m e d from until =
    let found = offset-Found c name n now z family e in
    found.1
    ∙ ap (λ b. some (if b then z +ℤ pos 60 else z))
        (in_effect-summer c now z w s m family found.0 d from until)

-- For a zone of the table, in January and February and in December (UTC) of the year,
-- ComputeKnownZoneOffsetMinutes gives the standard offset, on a calendar that counts days,
-- weekdays and seconds.
pub offset-in_winter :
    (c : Calendar) (name n : Text) (now z : ℤ) (family : DstFamily)
    → AdvancesWeekdays c
    → CountsSeconds c
    → HasMonths c (year_of c now)
    → zone_named known_time_zones name ≡ some (known_zone n z family)
    → (now <ℤ month_start c (year_of c now) 2) ⊎ (month_start c (year_of c now) 11 ≤ℤ now)
    → compute_known_zone_offset_minutes c name now ≡ some z
unfolding start
offset-in_winter c name n now z family w s m e out =
    let found = offset-Found c name n now z family e in
    found.1
    ∙ ap (λ b. some (if b then z +ℤ pos 60 else z))
        (in_effect-winter c now z w s m family found.0 out)
