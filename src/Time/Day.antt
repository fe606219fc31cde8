-- ===== src/Time/Day.antt =====
-- TimeOfDayString and SecondsSinceMidnightFromString.
pub mod RoundTrip
use pvr_dispatcharrai.Prelude.{
  ℕ, zero, suc, ◌+◌, ◌-◌, ◌*◌, ◌/◌, ◌%◌, Bool, true, false, ◌==◌, if◌then◌else◌, Option, none, some,
  List, [], ◌∷◌, ◌++◌, ℤ, pos, negsuc, sub_ℕ, ◌+ℤ◌,
}
use pvr_dispatcharrai.Prelude.Text.{Text, is_digit, skip_spaces}
use pvr_dispatcharrai.Time.{scale, ◌>>=◌}

-- `s % n`, which has the sign of s.
abbrev pub remainder : ℤ → ℕ → ℤ
remainder (pos s) n = pos (s % n)
remainder (negsuc s) n = sub_ℕ 0 (suc s % n)

abbrev add_day : ℤ → ℕ
add_day (pos s) = s
add_day (negsuc s) = 86400 - suc s

-- The seconds of a day, from 0 to 86399.
unfoldable pub wrap_day : ℤ → ℕ
wrap_day z = add_day (remainder z 86400)

-- `%02d` of a number below 100.
abbrev pub two_digits : ℕ → Text
two_digits n = (b'0' + n / 10) ∷ (b'0' + n % 10) ∷ []

-- TimeOfDayString.
unfoldable pub time_of_day_string : ℤ → Text
unfolding wrap_day
time_of_day_string seconds_since_midnight =
    let s = wrap_day seconds_since_midnight in
    two_digits (s / 3600) ++ (b':' ∷ two_digits (s / 60 % 60)) ++ (b':' ∷ two_digits (s % 60))

-- The digits in front, as a number, and what follows them.
unfoldable pub digits_in_front : ℕ → Text → ℕ × Text
digits_in_front acc [] = (acc, [])
digits_in_front acc (c ∷ cs) =
    let rest = digits_in_front (acc * 10 + (c - b'0')) cs in
    if is_digit c then rest else (acc, c ∷ cs)

unfoldable pub unsigned_in_front : Text → Option (ℕ × Text)
unfolding digits_in_front
unsigned_in_front [] = none
unsigned_in_front (c ∷ cs) = if is_digit c then some (digits_in_front (c - b'0') cs) else none

abbrev signed : (ℕ → ℤ) → Option (ℕ × Text) → Option (ℤ × Text)
signed f none = none
signed f (some (n, rest)) = some (f n, rest)

unfoldable pub signed_in_front : Text → Option (ℤ × Text)
unfolding unsigned_in_front
signed_in_front [] = none
signed_in_front (c ∷ cs) =
    if c == b'-'
    then signed (sub_ℕ 0) (unsigned_in_front cs)
    else if c == b'+'
    then signed pos (unsigned_in_front cs)
    else signed pos (unsigned_in_front (c ∷ cs))

-- `%d` of `sscanf`: white space, a sign, digits; and what follows.
unfoldable pub scan_int : Text → Option (ℤ × Text)
unfolding skip_spaces signed_in_front
scan_int t = signed_in_front (skip_spaces t)

-- A literal `:` of the format.
abbrev pub scan_colon : Text → Option Text
scan_colon [] = none
scan_colon (c ∷ cs) = if c == b':' then some cs else none

unfoldable pub scan_next : Text → Option (ℤ × Text)
unfolding scan_int
scan_next t = do u ← scan_colon t; scan_int u

abbrev third_or_zero : Option (ℤ × Text) → ℤ
third_or_zero none = pos 0
third_or_zero (some (s, rest)) = s

abbrev clock_seconds : Option (ℤ × ℤ × ℤ) → ℤ
clock_seconds none = pos 0
clock_seconds (some (h, m, s)) = scale 3600 h +ℤ scale 60 m +ℤ s

-- SecondsSinceMidnightFromString.
unfoldable pub seconds_since_midnight_from_string : Text → ℤ
unfolding scan_int scan_next
seconds_since_midnight_from_string hms = clock_seconds do
  (h, after_h) ← scan_int hms
  (m, after_m) ← scan_next after_h
  some (h, m, third_or_zero (scan_next after_m))
