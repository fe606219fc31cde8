-- ===== src/Time/Day/RoundTrip.antt =====
-- A time of day, printed and read.
use pvr_dispatcharrai.Prelude.{
  ℕ, ◌+◌, ◌-◌, ◌*◌, ◌/◌, ◌%◌, ◌<◌, ◌≡◌, refl, ap, ◌∙◌, true, false, ◌==◌, some, [], ◌∷◌, ◌++◌, ℤ,
  pos, negsuc, ◌+ℤ◌, pos_part, neg_part, arith,
}
use pvr_dispatcharrai.Prelude.Text.{Text, is_digit, skip_spaces}
use pvr_dispatcharrai.Time.Day.{
  wrap_day, two_digits, time_of_day_string, digits_in_front, unsigned_in_front, signed_in_front,
  scan_int, scan_next, seconds_since_midnight_from_string,
}

-- The seconds of the day are those of the number.
wrap_day-bound : (z : ℤ) → wrap_day z < 86400
unfolding wrap_day
wrap_day-bound (pos s) = omega arith
wrap_day-bound (negsuc s) = ground arith

wrap_day-congruent : (z : ℤ) → pos_part z % 86400 ≡ (neg_part z + wrap_day z) % 86400
unfolding wrap_day
wrap_day-congruent (pos s) = omega arith
wrap_day-congruent (negsuc s) = ground arith

digit-is : (n : ℕ) → n < 10 → is_digit (b'0' + n) ≡ true
digit-is n h = ground arith

-- What follows the digits is no digit.
Ends : Text → Type 0
Ends [] = Unit {0}
Ends (c ∷ cs) = is_digit c ≡ false

no_digits : (acc : ℕ) (rest : Text) → Ends rest → digits_in_front acc rest ≡ (acc, rest)
unfolding digits_in_front Ends
no_digits acc [] h = refl
no_digits acc (c ∷ cs) h = rw h refl

unsigned-two :
    (n : ℕ) (rest : Text)
    → n < 100
    → Ends rest
    → unsigned_in_front (two_digits n ++ rest) ≡ some (n, rest)
unfolding unsigned_in_front digits_in_front
unsigned-two n rest h k =
    rw
      (
        digit-is (n / 10) (omega arith),
        digit-is (n % 10) (omega arith),
        no_digits ((b'0' + n / 10 - b'0') * 10 + (b'0' + n % 10 - b'0')) rest k,
      )
      (ap (λ m. some (m, rest)) {x = (b'0' + n / 10 - b'0') * 10 + (b'0' + n % 10 - b'0')}
        (omega arith))

skip_digit : (n : ℕ) (cs : Text) → n < 10 → skip_spaces ((b'0' + n) ∷ cs) ≡ (b'0' + n) ∷ cs
unfolding skip_spaces
skip_digit n cs h = ground arith

no_sign : (n : ℕ) → n < 10 → (((b'0' + n) == b'-') ≡ false) × (((b'0' + n) == b'+') ≡ false)
no_sign n h = (ground arith, ground arith)

scan_int-two :
    (n : ℕ) (rest : Text)
    → n < 100
    → Ends rest
    → scan_int (two_digits n ++ rest) ≡ some (pos n, rest)
unfolding scan_int signed_in_front
scan_int-two n rest h k =
    let d = n / 10 in
    let signs = no_sign d (omega (arith, h)) in
    rw
      (
        skip_digit d ((b'0' + n % 10) ∷ rest) (omega (arith, h)),
        signs.0,
        signs.1,
        unsigned-two n rest h k,
      )
      refl

scan_next-two :
    (n : ℕ) (rest : Text)
    → n < 100
    → Ends rest
    → scan_next (b':' ∷ two_digits n ++ rest) ≡ some (pos n, rest)
unfolding scan_next
scan_next-two n rest h k = scan_int-two n rest h k

add_pos : (a b : ℕ) → pos a +ℤ pos b ≡ pos (a + b)
unfolding ◌+ℤ◌
add_pos a b = ground arith

read_back :
    (h m s : ℕ)
    → h < 100
    → m < 100
    → s < 100
    → seconds_since_midnight_from_string
        (two_digits h ++ (b':' ∷ two_digits m) ++ (b':' ∷ two_digits s))
      ≡ pos (3600 * h + 60 * m + s)
unfolding seconds_since_midnight_from_string Ends
read_back h m s a b c =
    rw
      (
        scan_int-two h ((b':' ∷ two_digits m) ++ (b':' ∷ two_digits s)) a refl,
        scan_next-two m (b':' ∷ two_digits s) b refl,
        scan_next-two s [] c tt,
        add_pos (3600 * h) (60 * m),
        add_pos (3600 * h + 60 * m) s,
      )
      refl

same_clock : (s : ℕ) → s < 86400 → 3600 * (s / 3600) + 60 * (s / 60 % 60) + s % 60 ≡ s
same_clock s h = omega arith

-- What TimeOfDayString prints for any number of seconds, negative or of more than a day too, is
-- read by SecondsSinceMidnightFromString as a number of seconds below 86400 that differs from it
-- by whole days.
pub seconds_since_midnight-time_of_day_string :
    (z : ℤ)
    → (r : ℕ) × (seconds_since_midnight_from_string (time_of_day_string z) ≡ pos r)
      × (r < 86400)
      × (pos_part z % 86400 ≡ (neg_part z + r) % 86400)
unfolding time_of_day_string
seconds_since_midnight-time_of_day_string z =
    let s = wrap_day z in
    let bound = wrap_day-bound z in
    (
      s,
      read_back (s / 3600) (s / 60 % 60) (s % 60) (omega (arith, bound)) (omega arith) (omega arith)
          ∙ ap pos {x = 3600 * (s / 3600) + 60 * (s / 60 % 60) + s % 60} (same_clock s bound),
      bound,
      wrap_day-congruent z,
    )
