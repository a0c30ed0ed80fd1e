-- ===== src/Money.antt =====
-- server/src/utils/money.ts: decimal texts and integer minor units. A text is the list of its code
-- points. Numbers of the source are integers here: `applyPercent` divides as a double and rounds,
-- and the result is the integer that stands below for every product under 2 ^ 53, which covers a
-- Decimal(10,2) amount at a Decimal(5,2) percentage.
pub mod Digits
pub mod RoundTrip
pub mod Percent
use Digits.{Text, trim, print, number, pad_start, pad_end, match_decimal}
use restaurant_qr_ordering_s.Base.{ℕ, ◌+◌, ◌*◌, ◌/◌, ◌%◌, Option, none, some, List, [], ◌∷◌, ◌++◌}
use restaurant_qr_ordering_s.Base.Int.{ℤ, pos, negsuc, abs, neg}
use restaurant_qr_ordering_s.Errors.{Result, ok, err, ◌>>=◌, bad_request, Reason}

unfoldable pub to_minor_units : Text → Result ℕ
unfolding trim match_decimal
to_minor_units value = elim (match_decimal (trim value)) [
  | none ↦ err (bad_request Reason.invalid_monetary_value)
  | some (whole, fraction) ↦ ok (number whole * 100 + number (pad_end 2 b'0' fraction))
]

abbrev pub sign_of : ℤ → Text
sign_of (pos n) = []
sign_of (negsuc n) = b'-' ∷ []

-- Its test `Number.isInteger` passes for every argument of this type.
unfoldable pub from_minor_units : ℤ → Text
unfolding print
from_minor_units amount =
    sign_of amount
    ++ (print (abs amount / 100) ++ (b'.' ∷ pad_start 2 b'0' (print (abs amount % 100))))

-- `Math.round` of a quotient by 10_000 that is not negative.
abbrev pub round_half_up : ℕ → ℕ
round_half_up scaled = (scaled + 5000) / 10_000

-- Both arguments in minor units.
unfoldable pub percent_of : ℕ → ℕ → ℕ
percent_of amount percent = round_half_up (amount * percent)

-- A negative quotient is negated, rounded and negated again.
abbrev pub percent_of_signed : ℤ → ℕ → ℤ
percent_of_signed (pos n) percent = pos (percent_of n percent)
percent_of_signed (negsuc n) percent = neg (pos (percent_of (abs (negsuc n)) percent))

unfoldable pub apply_percent : ℤ → Text → Result ℤ
unfolding to_minor_units
apply_percent amount percent = do
  percent_minor ← to_minor_units percent
  ok (percent_of_signed amount percent_minor)
