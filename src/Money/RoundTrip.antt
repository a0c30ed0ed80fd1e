-- ===== src/Money/RoundTrip.antt =====
-- What is printed is read back: `toMinorUnits` after `fromMinorUnits` (server/src/utils/money.ts).
use restaurant_qr_ordering_s.Base.{
  ℕ, zero, suc, ◌+◌, ◌-◌, ◌*◌, ◌/◌, ◌%◌, ◌<◌, ◌≡◌, ◌≢◌, refl, ap, ◌∙◌, inl, inr, true, false, some,
  [], ◌∷◌, ◌++◌, arith, ltb, Bool-cases, All, All-append,
}
use restaurant_qr_ordering_s.Base.Int.{pos}
use restaurant_qr_ordering_s.Errors.{ok}
use restaurant_qr_ordering_s.Money.{to_minor_units, from_minor_units}
use restaurant_qr_ordering_s.Money.Digits.{
  Text, is_digit, is_space, trim_start, trim_end, trim, span_digits, match_fraction, groups,
  match_decimal, number_from, number, print_fuel, print, pad_start,
}

abbrev AreDigits : Text → Type 0
AreDigits = All λ c. is_digit c ≡ true

abbrev AreSolid : Text → Type 0
AreSolid = All λ c. is_space c ≡ false

digit-solid : (c : ℕ) → is_digit c ≡ true → is_space c ≡ false
unfolding is_digit is_space
digit-solid c h = ground arith

AreDigits-solid : (t : Text) → AreDigits t → AreSolid t
AreDigits-solid [] h = tt
AreDigits-solid (c ∷ cs) (h, hs) = (digit-solid c h, AreDigits-solid cs hs)

trim_start_solid : (t : Text) → AreSolid t → trim_start t ≡ t
unfolding trim_start
trim_start_solid [] h = refl
trim_start_solid (c ∷ cs) h = rw (h.0)

trim_end_solid : (t : Text) → AreSolid t → trim_end t ≡ t
unfolding trim_end
trim_end_solid [] h = refl
trim_end_solid (c ∷ []) h = rw (h.0)
trim_end_solid (c ∷ d ∷ ds) h = rw (trim_end_solid (d ∷ ds) h.1)

trim_solid : (t : Text) → AreSolid t → trim t ≡ t
unfolding trim
trim_solid t h = rw (trim_start_solid t h) (trim_end_solid t h)

digit_of_lt : (d : ℕ) → d < 10 → is_digit (b'0' + d) ≡ true
unfolding is_digit
digit_of_lt d h = ground arith

print_fuel-AreDigits : (f n : ℕ) → AreDigits (print_fuel f n)
unfolding print_fuel
print_fuel-AreDigits zero n = tt
print_fuel-AreDigits (suc f) n = elim (Bool-cases (ltb n 10)) [
  | inl small ↦ rw small (digit_of_lt n (ground arith), tt)
  | inr big ↦ rw big (
      All-append (λ c. is_digit c ≡ true) (print_fuel f (n / 10)) ((b'0' + n % 10) ∷ [])
        (print_fuel-AreDigits f (n / 10)) (digit_of_lt (n % 10) (omega arith), tt))
]

number_from-append :
    (a : ℕ) (t : Text) (c : ℕ) → number_from a (t ++ (c ∷ [])) ≡ number_from a t * 10 + (c - b'0')
number_from-append a [] c = refl
number_from-append a (d ∷ ds) c = number_from-append (a * 10 + (d - b'0')) ds c

number-print_fuel : (f n : ℕ) → n < f → number (print_fuel f n) ≡ n
unfolding print_fuel
number-print_fuel zero n h = elim h [ ]
number-print_fuel (suc f) n h = elim (Bool-cases (ltb n 10)) [
  | inl small ↦ rw small (omega arith)
  | inr big ↦ rw big (
      omega (
        arith,
        number_from-append 0 (print_fuel f (n / 10)) (b'0' + n % 10),
        number-print_fuel f (n / 10) (ground arith),
      ))
]

pub number-print : (n : ℕ) → number (print n) ≡ n
unfolding print
number-print n = number-print_fuel (suc n) n (omega arith)

pub print-AreDigits : (n : ℕ) → AreDigits (print n)
unfolding print
print-AreDigits n = print_fuel-AreDigits (suc n) n

append-ne-nil : (t : Text) (c : ℕ) → t ++ (c ∷ []) ≢ []
append-ne-nil [] c e = cc
append-ne-nil (d ∷ ds) c e = cc

print-ne-nil : (n : ℕ) → print n ≢ []
unfolding print print_fuel
print-ne-nil n e = elim (Bool-cases (ltb n 10)) [
  | inl small ↦ cc (rw small at e)
  | inr big ↦ append-ne-nil (print_fuel n (n / 10)) (b'0' + n % 10) (rw big at e)
]

span_digits-append : (t r : Text) → AreDigits t → span_digits (t ++ (b'.' ∷ r)) ≡ (t, b'.' ∷ r)
unfolding span_digits
span_digits-append [] r h = refl
span_digits-append (c ∷ cs) r (h, hs) = rw (h, span_digits-append cs r hs)

groups_of : (t r f : Text) → t ≢ [] → match_fraction r ≡ some f → groups (t, r) ≡ some (t, f)
groups_of [] r f h e = absurd (h refl)
groups_of (c ∷ cs) r f h e = rw (e, groups)

-- A number below 100, printed in two digits.
abbrev two_digits : ℕ → Text
two_digits n = (b'0' + n / 10) ∷ (b'0' + n % 10) ∷ []

pad_start-print_fuel :
    (f n : ℕ) → n < 100 → pad_start 2 b'0' (print_fuel (suc (suc f)) n) ≡ two_digits n
unfolding print_fuel
pad_start-print_fuel f n h = ground arith

pad_start-print : (n : ℕ) → n < 100 → pad_start 2 b'0' (print n) ≡ two_digits n
unfolding print print_fuel
pad_start-print zero h = refl
pad_start-print (suc n) h = pad_start-print_fuel n (suc n) h

match_fraction-two_digits :
    (n : ℕ) → n < 100 → match_fraction (b'.' ∷ two_digits n) ≡ some (two_digits n)
unfolding match_fraction is_digit
match_fraction-two_digits n h = ground arith

dot-solid : (n : ℕ) → n < 100 → AreSolid (b'.' ∷ two_digits n)
unfolding is_space
dot-solid n h = ground arith

match_decimal-print :
    (w n : ℕ)
    → n < 100
    → match_decimal (print w ++ (b'.' ∷ two_digits n)) ≡ some (print w, two_digits n)
unfolding match_decimal
match_decimal-print w n h = rw (span_digits-append (print w) (two_digits n) (print-AreDigits w)) (
    groups_of (print w) (b'.' ∷ two_digits n) (two_digits n) (print-ne-nil w)
      (match_fraction-two_digits n h))

trim-print :
    (w n : ℕ) → n < 100 → trim (print w ++ (b'.' ∷ two_digits n)) ≡ print w ++ (b'.' ∷ two_digits n)
trim-print w n h = trim_solid (print w ++ (b'.' ∷ two_digits n)) (
    All-append (λ c. is_space c ≡ false) (print w) (b'.' ∷ two_digits n)
      (AreDigits-solid (print w) (print-AreDigits w)) (dot-solid n h))

read_printed :
    (w n : ℕ) → n < 100 → to_minor_units (print w ++ (b'.' ∷ two_digits n)) ≡ ok (w * 100 + n)
unfolding to_minor_units
read_printed w n h =
    rw (to_minor_units, trim-print w n h, match_decimal-print w n h)
      (ap ok (omega (arith, number-print w)))

-- Every amount that is not negative, printed with two decimals by `fromMinorUnits`, is read back by
-- `toMinorUnits` as the same number of minor units.
pub to_minor_units-from_minor_units : (n : ℕ) → to_minor_units (from_minor_units (pos n)) ≡ ok n
unfolding from_minor_units
to_minor_units-from_minor_units n =
    rw (pad_start-print (n % 100) (omega arith))
      (read_printed (n / 100) (n % 100) (omega arith) ∙ ap ok (omega arith))
