-- ===== src/Prelude/Text.antt =====
-- The operations of `std::string` and `<string>` that the sources use, over the bytes of a text.
use Prim.Native.Char.{code}
use Prim.Native.String.{String}
use mathlib.Core.Option
use pvr_dispatcharrai.Prelude.Tests.{Bool, true, false, leb, ◌==◌, ◌&&◌, ◌||◌, if◌then◌else◌}
use pvr_dispatcharrai.Prelude.Int.{ℤ, pos, negsuc, sub_ℕ, fits}
use pvr_dispatcharrai.Prelude.Lists.{take, drop}
use Prim.Native.Nat.{ℕ, zero, suc, ◌+◌, ◌-◌, ◌*◌, ◌/◌, ◌%◌}
use mathlib.Core.Option.{Option, none, some}
use mathlib.Core.List.{List, [], ◌∷◌}

abbrev pub Text : Type 0
Text = List ℕ

-- The bytes of a literal, which is ASCII throughout.
abbrev pub codes : String → Text
codes String.[] = []
codes (String.◌∷◌ c s) = code c ∷ codes s

abbrev pub is_empty : Text → Bool
is_empty [] = true
is_empty (c ∷ cs) = false

unfoldable pub text_eq : Text → Text → Bool
text_eq [] [] = true
text_eq (c ∷ cs) (d ∷ ds) = c == d && text_eq cs ds
text_eq _ _ = false

-- `isspace` in the C locale.
abbrev is_space : ℕ → Bool
is_space c = (c == 32) || (leb 9 c && leb c 13)

abbrev pub is_digit : ℕ → Bool
is_digit c = leb b'0' c && leb c b'9'

-- `std::tolower` in the C locale.
abbrev pub to_lower : ℕ → ℕ
to_lower c = if leb b'A' c && leb c b'Z' then c + 32 else c

-- `t.compare(0, n, prefix) == 0` for a prefix of length n, and `t.rfind(prefix, 0) == 0`.
unfoldable pub starts_with : Text → Text → Bool
starts_with t [] = true
starts_with [] (p ∷ ps) = false
starts_with (c ∷ cs) (p ∷ ps) = c == p && starts_with cs ps

-- `t.find(needle)`: the first position where the needle stands.
unfoldable pub find : Text → Text → Option ℕ
unfolding starts_with
find [] needle = if is_empty needle then some 0 else none
find (c ∷ cs) needle =
    let later = Option.map suc (find cs needle) in
    if starts_with (c ∷ cs) needle then some 0 else later

-- `t.find(needle) != npos`.
abbrev pub contains : Text → Text → Bool
contains t needle = elim (find t needle) [ none ↦ false | some i ↦ true ]

-- `t.rfind(c)`: the last position where the byte stands.
unfoldable pub rfind : Text → ℕ → Option ℕ
rfind [] d = none
rfind (c ∷ cs) d = elim (rfind cs d) [
  | some i ↦ some (suc i)
  | none ↦ if c == d then some 0 else none
]

-- `t.substr(i, n)`.
abbrev pub substr : Text → ℕ → ℕ → Text
substr t i n = take n (drop i t)

unfoldable pub skip_spaces : Text → Text
skip_spaces [] = []
skip_spaces (c ∷ cs) = if is_space c then skip_spaces cs else c ∷ cs

unfoldable pub scan_digits : ℕ → Text → ℕ
scan_digits acc [] = acc
scan_digits acc (c ∷ cs) =
    let rest = scan_digits (acc * 10 + (c - b'0')) cs in if is_digit c then rest else acc

unfoldable pub unsigned_value : Text → Option ℕ
unfolding scan_digits
unsigned_value [] = none
unsigned_value (c ∷ cs) = if is_digit c then some (scan_digits (c - b'0') cs) else none

unfoldable pub signed_value : Text → Option ℤ
unfolding unsigned_value
signed_value [] = none
signed_value (c ∷ cs) =
    if c == b'-'
    then Option.map (sub_ℕ 0) (unsigned_value cs)
    else if c == b'+'
    then Option.map pos (unsigned_value cs)
    else Option.map pos (unsigned_value (c ∷ cs))

-- `std::stoi` and `std::stoll`, at 32 and 64 bits: white space, a sign, digits, and then anything.
-- `none` is either exception: no digits, or a value out of range.
unfoldable pub parse_int : ℕ → Text → Option ℤ
unfolding skip_spaces signed_value
parse_int w t = elim (signed_value (skip_spaces t)) [
  | none ↦ none
  | some z ↦ if fits w z then some z else none
]

abbrev pub stoi : Text → Option ℤ
stoi = parse_int 32

abbrev pub stoll : Text → Option ℤ
stoll = parse_int 64

-- The decimal digits of a number below 10 ^ fuel, before `rest`.
unfoldable pub digits_before : ℕ → ℕ → Text → Text
digits_before zero n rest = rest
digits_before (suc fuel) n rest =
    let more = digits_before fuel (n / 10) ((b'0' + n % 10) ∷ rest) in
    if leb n 9 then (b'0' + n) ∷ rest else more

-- `std::to_string` of an integer of at most 64 bits, which has at most 20 digits.
unfoldable pub to_string : ℤ → Text
unfolding digits_before
to_string (pos n) = digits_before 20 n []
to_string (negsuc n) = b'-' ∷ digits_before 20 (suc n) []
