-- ===== src/Money/Digits.antt =====
-- Decimal texts as server/src/utils/money.ts reads and prints them: trimming, the pattern
-- `/^(\d+)(?:\.(\d{1,2}))?$/` with its two groups, `Number` of digits, `String` of a whole number,
-- `padStart` and `padEnd`.
use restaurant_qr_ordering_s.Base.{
  ℕ, zero, suc, ◌+◌, ◌-◌, ◌*◌, ◌/◌, ◌%◌, Bool, ◌&&◌, ◌||◌, Option, none, some, List, [], ◌∷◌, ◌++◌,
  ltb, leb, ◌==◌, if◌then◌else◌, length,
}

abbrev pub Text : Type 0
Text = List ℕ

unfoldable pub is_digit : ℕ → Bool
is_digit c = leb b'0' c && leb c b'9'

-- The white space and line terminators that `trim` removes.
unfoldable pub is_space : ℕ → Bool
is_space c =
    leb 9 c && leb c 13
    || c == 32
    || c == 0xa0
    || c == 0x1680
    || leb 0x2000 c && leb c 0x200a
    || c == 0x2028
    || c == 0x2029
    || c == 0x202f
    || c == 0x205f
    || c == 0x3000
    || c == 0xfeff

unfoldable pub trim_start : Text → Text
trim_start [] = []
trim_start (c ∷ cs) = if is_space c then trim_start cs else c ∷ cs

abbrev pub drop_blank : ℕ → Text → Text
drop_blank c [] = if is_space c then [] else c ∷ []
drop_blank c (d ∷ ds) = c ∷ d ∷ ds

unfoldable pub trim_end : Text → Text
trim_end [] = []
trim_end (c ∷ cs) = drop_blank c (trim_end cs)

unfoldable pub trim : Text → Text
unfolding trim_start trim_end is_space
trim t = trim_end (trim_start t)

abbrev pub cons_first : ℕ → Text × Text → Text × Text
cons_first c (a, b) = (c ∷ a, b)

-- The longest run of digits in front, and the rest.
unfoldable pub span_digits : Text → Text × Text
unfolding is_digit
span_digits [] = ([], [])
span_digits (c ∷ cs) = if is_digit c then cons_first c (span_digits cs) else ([], c ∷ cs)

-- `(?:\.(\d{1,2}))?$`, with the missing group as the empty text.
unfoldable pub match_fraction : Text → Option Text
unfolding is_digit
match_fraction [] = some []
match_fraction (p ∷ []) = none
match_fraction (p ∷ a ∷ []) = if p == b'.' && is_digit a then some (a ∷ []) else none
match_fraction (p ∷ a ∷ b ∷ []) =
    if p == b'.' && (is_digit a && is_digit b) then some (a ∷ b ∷ []) else none
match_fraction (p ∷ a ∷ b ∷ c ∷ r) = none

abbrev pub groups : Text × Text → Option (Text × Text)
groups ([], r) = none
groups (c ∷ cs, r) = elim (match_fraction r) [ none ↦ none | some f ↦ some (c ∷ cs, f) ]

unfoldable pub match_decimal : Text → Option (Text × Text)
unfolding span_digits match_fraction
match_decimal t = groups (span_digits t)

abbrev pub number_from : ℕ → Text → ℕ
number_from n [] = n
number_from n (c ∷ cs) = number_from (n * 10 + (c - b'0')) cs

-- `Number` of a text of digits.
abbrev pub number : Text → ℕ
number = number_from 0

-- One round for each digit; the fuel is above the number.
unfoldable pub print_fuel : ℕ → ℕ → Text
print_fuel zero n = []
print_fuel (suc f) n =
    let rest = print_fuel f (n / 10) in
    if ltb n 10 then (b'0' + n) ∷ [] else rest ++ ((b'0' + n % 10) ∷ [])

unfoldable pub print : ℕ → Text
unfolding print_fuel
print n = print_fuel (suc n) n

abbrev pub replicate : ℕ → ℕ → Text
replicate zero c = []
replicate (suc n) c = c ∷ replicate n c

abbrev pub pad_start : ℕ → ℕ → Text → Text
pad_start width c t = replicate (width - length t) c ++ t

abbrev pub pad_end : ℕ → ℕ → Text → Text
pad_end width c t = t ++ replicate (width - length t) c
