-- ===== src/Time.antt =====
-- The times and dates of src/DispatcharrClient.cpp, over `timegm` and `gmtime` of the C library
-- (src/TimeUtil.h), which are an argument.
pub mod Day
pub mod Zones
mod Tests
use pvr_dispatcharrai.Prelude.{
  ℕ, zero, suc, ◌+◌, ◌-◌, ◌*◌, Bool, ltb, ◌==◌, if◌then◌else◌, Option, none, some, List, [], ◌∷◌, ℤ,
  pos, negsuc, sub_ℕ, ◌-ℤ◌, length,
}
use pvr_dispatcharrai.Prelude.Text.{Text, substr, parse_int, stoi}

infixl 5 ◌>>=◌
abbrev pub ◌>>=◌ : {A B : Type 0} → Option A → (A → Option B) → Option B
o >>= f = elim o [ none ↦ none | some a ↦ f a ]

-- `struct tm`.
pub record Tm : Type 0 where
  pub tm_year : ℤ
  pub tm_mon : ℤ
  pub tm_mday : ℤ
  pub tm_hour : ℤ
  pub tm_min : ℤ
  pub tm_sec : ℤ
  pub tm_wday : ℕ

-- PortableTimeGm and GmTimeUtc.
pub record Calendar : Type 0 where
  pub portable_time_gm : Tm → ℤ
  pub gm_time_utc : ℤ → Tm

-- `k * z`.
abbrev pub scale : ℕ → ℤ → ℤ
scale k (pos n) = pos (k * n)
scale k (negsuc n) = sub_ℕ 0 (k * suc n)

-- The start of an hour of a day.
abbrev pub tm_at : ℤ → ℕ → ℕ → ℕ → Tm
tm_at year month0 mday hour = record {
  tm_year = year -ℤ pos 1900;
  tm_mon = pos month0;
  tm_mday = pos mday;
  tm_hour = pos hour;
  tm_min = pos 0;
  tm_sec = pos 0;
  tm_wday = 0;
}

-- The fields that are parsed from these places of a text, or an exception.
abbrev pub fields_at : List (ℕ × ℕ) → Text → Option (List ℤ)
fields_at [] t = some []
fields_at ((at, n) ∷ more) t = do z ← stoi (substr t at n); rest ← fields_at more t; some (z ∷ rest)

unfoldable pub tm_of : List ℤ → Tm
tm_of (y ∷ mo ∷ d ∷ h ∷ mi ∷ s ∷ []) = record {
  tm_year = y -ℤ pos 1900;
  tm_mon = mo -ℤ pos 1;
  tm_mday = d;
  tm_hour = h;
  tm_min = mi;
  tm_sec = s;
  tm_wday = 0;
}
tm_of (y ∷ mo ∷ d ∷ []) = record {
  tm_year = y -ℤ pos 1900;
  tm_mon = mo -ℤ pos 1;
  tm_mday = d;
  tm_hour = pos 0;
  tm_min = pos 0;
  tm_sec = pos 0;
  tm_wday = 0;
}
tm_of _ = record {
  tm_year = pos 0;
  tm_mon = pos 0;
  tm_mday = pos 0;
  tm_hour = pos 0;
  tm_min = pos 0;
  tm_sec = pos 0;
  tm_wday = 0;
}

abbrev pub time_or_zero : Calendar → Option (List ℤ) → ℤ
time_or_zero c none = pos 0
time_or_zero c (some fields) = c.portable_time_gm (tm_of fields)

abbrev pub iso_fields : List (ℕ × ℕ)
iso_fields = (0, 4) ∷ (5, 2) ∷ (8, 2) ∷ (11, 2) ∷ (14, 2) ∷ (17, 2) ∷ []

-- TimeFromIso.
unfoldable pub time_from_iso : Calendar → Text → ℤ
unfolding tm_of parse_int
time_from_iso c iso_str =
    if ltb (length iso_str) 19 then pos 0 else time_or_zero c (fields_at iso_fields iso_str)

abbrev pub date_fields : List (ℕ × ℕ)
date_fields = (0, 4) ∷ (5, 2) ∷ (8, 2) ∷ []

-- TimeFromDateString.
unfoldable pub time_from_date_string : Calendar → Text → ℤ
unfolding tm_of parse_int
time_from_date_string c date_str =
    if ltb (length date_str) 10 then pos 0 else time_or_zero c (fields_at date_fields date_str)
