-- ===== src/XmlTv/Offset.antt =====
-- ParseXmlTvTime with an offset.
use pvr_dispatcharrai.Prelude.{
  ℕ, suc, ◌+◌, ◌-◌, ◌*◌, ◌≤◌, ◌<◌, ◌≡◌, refl, sym, ap, subst, ◌∙◌, Bool, true, false, ◌==◌,
  not_lt→ltb, lt→ltb, if◌then◌else◌, Option, none, some, List, [], ◌∷◌, ◌++◌, ℤ, pos, negsuc, ◌+ℤ◌,
  ◌-ℤ◌, length, length-append, drop, drop-append, take, take-append, length-drop, append-nil, arith,
}
use pvr_dispatcharrai.Prelude.Below.{all_below, all_below_lem}
use pvr_dispatcharrai.Prelude.Text.{Text, find, substr, stoi, parse_int}
use pvr_dispatcharrai.Time.{Calendar, tm_of, fields_at}
use pvr_dispatcharrai.Time.Day.{two_digits}
use pvr_dispatcharrai.XmlTv.{
  digits_of_time, hours_and_minutes, offset_seconds, offset_at, space, shifted_time,
  parse_xml_tv_time,
}
use pvr_dispatcharrai.XmlTv.Numbers.{Lacks, find-Lacks}

is_read : Option ℤ → ℕ → Bool
is_read (some (pos k)) n = k == n
is_read _ n = false

is_read-eq : (o : Option ℤ) (n : ℕ) → is_read o n ≡ true → o ≡ some (pos n)
unfolding is_read
is_read-eq none n h = ground arith
is_read-eq (some (pos k)) n h = ground arith
is_read-eq (some (negsuc k)) n h = ground arith

reads : ℕ → Bool
unfolding is_read parse_int
reads n = is_read (stoi (two_digits n)) n

all_read : all_below 100 reads ≡ true
unfolding all_below reads
all_read = refl

stoi-two : (n : ℕ) → n < 100 → stoi (two_digits n) ≡ some (pos n)
stoi-two n h =
    is_read-eq (stoi (two_digits n)) n (unfold reads in all_below_lem 100 reads n all_read h)

-- A field within the first text is a field of both.
take-within : (n : ℕ) (xs ys : Text) → n ≤ length xs → take n (xs ++ ys) ≡ take n xs
take-within n xs ys h =
    take-append n xs ys
    ∙ ap (λ k. take n xs ++ take k ys) {x = n - length xs} {y = 0} (omega arith)
    ∙ append-nil (take n xs)

substr-within :
    (at n : ℕ) (xs ys : Text) → at + n ≤ length xs → substr (xs ++ ys) at n ≡ substr xs at n
substr-within at n xs ys h =
    ap (take n) (
      drop-append at xs ys
      ∙ ap (λ k. drop at xs ++ drop k ys) {x = at - length xs} {y = 0} (omega arith))
    ∙ take-within n (drop at xs) ys (omega (arith, length-drop at xs))

abbrev Within : ℕ → List (ℕ × ℕ) → Type 0
Within w [] = Unit {0}
Within w ((at, n) ∷ more) = (at + n ≤ w) × Within w more

fields_at-Within :
    (places : List (ℕ × ℕ)) (xs ys : Text)
    → Within (length xs) places
    → fields_at places (xs ++ ys) ≡ fields_at places xs
fields_at-Within [] xs ys h = refl
fields_at-Within ((at, n) ∷ more) xs ys h =
    rw (substr-within at n xs ys h.0, fields_at-Within more xs ys h.1) refl

-- `+HHMM` and `-HHMM`.
abbrev pub offset_text : Bool → ℕ → ℕ → Text
offset_text is_west h m = (if is_west then b'-' else b'+') ∷ two_digits h ++ two_digits m

offset_seconds-text :
    (is_west : Bool) (h m : ℕ)
    → h < 100
    → m < 100
    → offset_seconds (offset_text is_west h m) ≡ (
        if is_west
        then pos 0 -ℤ (pos (3600 * h) +ℤ pos (60 * m))
        else pos (3600 * h) +ℤ pos (60 * m))
unfolding offset_seconds hours_and_minutes
offset_seconds-text true h m a b = rw (stoi-two h a, stoi-two m b) refl
offset_seconds-text false h m a b = rw (stoi-two h a, stoi-two m b) refl

drop-past : (d t : Text) → drop (length d + 1) (d ++ (b' ' ∷ t)) ≡ t
drop-past [] t = refl
drop-past (c ∷ cs) t =
    ap (λ k. drop k (c ∷ cs ++ (b' ' ∷ t))) {x = suc (length cs) + 1} {y = suc (length cs + 1)}
      (omega arith)
    ∙ drop-past cs t

offset_at-text :
    (d : Text) (is_west : Bool) (h m : ℕ)
    → Lacks b' ' d
    → offset_at
        (find (d ++ (b' ' ∷ offset_text is_west h m)) space)
        (d ++ (b' ' ∷ offset_text is_west h m))
      ≡ offset_seconds (offset_text is_west h m)
unfolding offset_at
offset_at-text d is_west h m l =
    ap (λ o. offset_at o (d ++ (b' ' ∷ offset_text is_west h m)))
      (find-Lacks b' ' d (offset_text is_west h m) l)
    ∙ rw
        (lt→ltb (length d + 5) (length (d ++ (b' ' ∷ offset_text is_west h m)))
          (omega (arith, length-append d (b' ' ∷ offset_text is_west h m))))
        (ap offset_seconds (drop-past d (offset_text is_west h m)))

Within-14 : (d : Text) → length d ≡ 14 → Within (length d) digits_of_time
Within-14 d e = subst (λ n. Within n digits_of_time) (sym e) (ground arith)

-- A date of 14 bytes without a space, whose fields are numbers, followed by a space and `+HHMM` or
-- `-HHMM`, is read by ParseXmlTvTime as the moment of the date in UTC, earlier by the offset if it
-- is `+` and later by it if it is `-`.
pub parse_xml_tv_time-offset :
    (c : Calendar) (d : Text) (fields : List ℤ) (is_west : Bool) (h m : ℕ)
    → length d ≡ 14
    → Lacks b' ' d
    → fields_at digits_of_time d ≡ some fields
    → h < 100
    → m < 100
    → parse_xml_tv_time c (d ++ (b' ' ∷ offset_text is_west h m))
      ≡ c.portable_time_gm (tm_of fields)
        -ℤ (if is_west
            then pos 0 -ℤ (pos (3600 * h) +ℤ pos (60 * m))
            else pos (3600 * h) +ℤ pos (60 * m))
unfolding parse_xml_tv_time shifted_time
parse_xml_tv_time-offset c d fields is_west h m len l f a b =
    let tail = b' ' ∷ offset_text is_west h m in
    rw
      (
        not_lt→ltb (length (d ++ tail)) 14 (omega (arith, length-append d tail)),
        fields_at-Within digits_of_time d tail (Within-14 d len) ∙ f,
        offset_at-text d is_west h m l,
        offset_seconds-text is_west h m a b,
      )
      refl
