-- ===== src/Money/Percent.antt =====
-- The rounding of `applyPercent` (server/src/utils/money.ts).
use restaurant_qr_ordering_s.Base.{ℕ, zero, suc, ◌+◌, ◌*◌, ◌≤◌, ◌<◌, ◌≡◌, refl, sym, arith}
use restaurant_qr_ordering_s.Base.Int.{ℤ, pos, negsuc, neg}
use restaurant_qr_ordering_s.Money.{percent_of, percent_of_signed, apply_percent, from_minor_units}
use restaurant_qr_ordering_s.Money.RoundTrip.{to_minor_units-from_minor_units}
use restaurant_qr_ordering_s.Errors.{ok}

-- The result is the whole minor unit nearest to the exact percentage, and a tie goes up.
percent_of_nearest :
    (a p : ℕ) → (percent_of a p * 10_000 ≤ a * p + 5000) × (a * p < percent_of a p * 10_000 + 5000)
unfolding percent_of
percent_of_nearest a p = omega arith

pub percent_of-le : (a p : ℕ) → p ≤ 10_000 → percent_of a p ≤ a
unfolding percent_of
percent_of-le a p h = grind arith

pub percent_of_mono : (a p q : ℕ) → p ≤ q → percent_of a p ≤ percent_of a q
unfolding percent_of
percent_of_mono a p q h = grind arith

pub percent_of_all : (a : ℕ) → percent_of a 10_000 ≡ a
unfolding percent_of
percent_of_all a = omega arith

pub percent_of-zero : (a : ℕ) → percent_of a 0 ≡ 0
unfolding percent_of
percent_of-zero a = omega arith

percent_of-zero_amount : (p : ℕ) → percent_of 0 p ≡ 0
unfolding percent_of
percent_of-zero_amount p = omega arith

neg-neg : (n : ℕ) → neg (neg (pos n)) ≡ pos n
neg-neg zero = refl
neg-neg (suc n) = refl

-- A credit is the charge that it reverses, with the other sign: rounding is half away from zero, for
-- every integer amount.
percent_of_signed-neg : (a : ℤ) (p : ℕ) → percent_of_signed (neg a) p ≡ neg (percent_of_signed a p)
percent_of_signed-neg (pos zero) p = rw (percent_of-zero_amount p)
percent_of_signed-neg (pos (suc n)) p = refl
percent_of_signed-neg (negsuc n) p = sym (neg-neg (percent_of (suc n) p))

-- `applyPercent` at a percentage that `fromMinorUnits` has printed, as `discountMinor` calls it.
apply_percent-from_minor_units :
    (a : ℤ) (p : ℕ) → apply_percent a (from_minor_units (pos p)) ≡ ok (percent_of_signed a p)
unfolding apply_percent
apply_percent-from_minor_units a p = rw (to_minor_units-from_minor_units p)
