-- ===== src/Client/Amounts.antt =====
-- client/src/lib/money.ts. A number of the source is an integer here, and a quotient is rounded at
-- once, as in `Money`.
use restaurant_qr_ordering_s.Base.{
  ℕ, suc, ◌+◌, ◌*◌, Bool, true, false, Option, none, some, List, [], ◌∷◌, ◌==◌, if◌then◌else◌,
}
use restaurant_qr_ordering_s.Base.Int.{ℤ, pos, negsuc, neg, ◌+ℤ◌, ◌*ℤ◌}
use restaurant_qr_ordering_s.Money.{from_minor_units, round_half_up}
use restaurant_qr_ordering_s.Money.Digits.{Text, trim, match_decimal, number, pad_end}

-- The optional sign in front.
abbrev pub strip_minus : Text → Bool × Text
strip_minus [] = (false, [])
strip_minus (c ∷ cs) = if c == b'-' then (true, cs) else (false, c ∷ cs)

abbrev pub signed : Bool → ℕ → ℤ
signed true n = neg (pos n)
signed false n = pos n

abbrev pub amount_of : Bool → Option (Text × Text) → ℤ
amount_of negative none = pos 0
amount_of negative (some (whole, fraction)) =
    signed negative (number whole * 100 + number (pad_end 2 b'0' fraction))

abbrev pub read_signed : Bool × Text → ℤ
read_signed (negative, digits) = amount_of negative (match_decimal digits)

unfoldable pub to_minor : Text → ℤ
to_minor value = read_signed (strip_minus (trim value))

-- An integer is its own rounding, and the two printers of an amount read alike.
abbrev pub from_minor : ℤ → Text
from_minor = from_minor_units

abbrev pub round_away : ℤ → ℤ
round_away (pos scaled) = pos (round_half_up scaled)
round_away (negsuc n) = neg (pos (round_half_up (suc n)))

unfoldable pub apply_percent_minor : ℤ → Text → ℤ
apply_percent_minor minor percent = round_away (minor *ℤ to_minor percent)

pub record Line : Type 0 where
  pub price : Text
  pub quantity : ℕ

unfoldable pub sum_lines_minor : List Line → ℤ
sum_lines_minor [] = pos 0
sum_lines_minor (l ∷ ls) = to_minor l.price *ℤ pos l.quantity +ℤ sum_lines_minor ls

pub record Quote : Type 0 where
  pub subtotal : Text
  pub tax : Text
  pub service_charge : Text
  pub total : Text

unfoldable pub quote_totals : ℤ → Text → Text → Quote
quote_totals subtotal tax_percent service_percent =
    let tax = apply_percent_minor subtotal tax_percent in
    let service = apply_percent_minor subtotal service_percent in
    record {
      subtotal = from_minor subtotal;
      tax = from_minor tax;
      service_charge = from_minor service;
      total = from_minor (subtotal +ℤ tax +ℤ service);
    }
