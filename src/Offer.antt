-- ===== src/Offer.antt =====
-- server/src/utils/offer.ts: what an offer takes off a price, the price to charge and to store, the
-- check of the write path, and the badge. `discountMinor` hands the percentage on as a text, which
-- `Money.Percent.apply_percent-from_minor_units` reads back.
pub mod Price
use Prim.Native.Nat.{min, max}
use restaurant_qr_ordering_s.Base.{
  ℕ, ◌+◌, ◌-◌, Bool, true, false, not, ◌&&◌, ◌||◌, Option, none, some, List, [], ◌∷◌, ◌++◌, ltb,
  leb, ◌==◌, if◌then◌else◌,
}
use restaurant_qr_ordering_s.Base.Int.{pos}
use restaurant_qr_ordering_s.Errors.{Result, ok, err, ◌>>=◌, ◌>>◌, throw_if, bad_request, Reason}
use restaurant_qr_ordering_s.Money.{to_minor_units, from_minor_units, percent_of}
use restaurant_qr_ordering_s.Money.Digits.{Text, trim}

pub data OfferType : Type 0 where
  percentage fixed : OfferType

-- The columns of a dish; `null` and `false` are alike for `isOfferActive`.
pub record OfferInput : Type 0 where
  pub is_offer_active : Bool
  pub offer_type : Option OfferType
  pub offer_value : Option Text

abbrev pub raw_discount : ℕ → OfferType → ℕ → ℕ
raw_discount price percentage value = percent_of price value
raw_discount price fixed value = value

unfoldable pub discount_minor : ℕ → OfferType → ℕ → ℕ
unfolding percent_of
discount_minor price kind value = min (max (raw_discount price kind value) 0) price

abbrev pub read_offer_value : Text → Option ℕ
read_offer_value value = elim (to_minor_units value) [ ok v ↦ some v | err e ↦ none ]

abbrev pub discounted : ℕ → OfferType → Option ℕ → ℕ
discounted price kind none = price
discounted price kind (some value) = price - discount_minor price kind value

-- The type and the value of an offer that is switched on and filled in.
unfoldable pub running : OfferInput → Option (OfferType × Text)
running offer = if not offer.is_offer_active then none else elim offer.offer_type [
  | none ↦ none
  | some kind ↦ elim offer.offer_value [ none ↦ none | some value ↦ some (kind, value) ]
]

abbrev pub charge : ℕ → Option (OfferType × Text) → ℕ
charge price none = price
charge price (some (kind, value)) = discounted price kind (read_offer_value value)

unfoldable pub effective_price_minor : ℕ → OfferInput → ℕ
effective_price_minor price offer = charge price (running offer)

abbrev pub derive_running : Text → Option (OfferType × Text) → Result (Option Text)
derive_running price none = ok none
derive_running price (some on) = do
  price_minor ← to_minor_units price
  ok (some (from_minor_units (pos (charge price_minor (some on)))))

unfoldable pub derive_offer_price : Text → OfferInput → Result (Option Text)
derive_offer_price price offer = derive_running price (running offer)

abbrev pub check_value : Text → OfferType → ℕ → Result (Unit {0})
check_value price percentage value =
    throw_if (ltb 10_000 value) (bad_request Reason.percentage_over_100)
check_value price fixed value = do
  price_minor ← to_minor_units price
  throw_if (ltb price_minor value) (bad_request (Reason.discount_over_price value price_minor))

abbrev pub check_running : Text → Option (OfferType × Text) → Result (Unit {0})
check_running price none = err (bad_request Reason.offer_incomplete)
check_running price (some (kind, value)) = do
  value_minor ← to_minor_units value
  throw_if (leb value_minor 0) (bad_request Reason.discount_not_positive)
  check_value price kind value_minor

unfoldable pub assert_offer_is_coherent : Text → OfferInput → Result (Unit {0})
assert_offer_is_coherent price offer =
    if not offer.is_offer_active then ok tt else check_running price (running offer)

abbrev is_zero_cents : Text → Bool
is_zero_cents (p ∷ a ∷ b ∷ []) = p == b'.' && a == b'0' && b == b'0'
is_zero_cents _ = false

-- `replace(/\.00$/, "")`
abbrev drop_zero_cents : Text → Text
drop_zero_cents [] = []
drop_zero_cents (c ∷ cs) = if is_zero_cents (c ∷ cs) then [] else c ∷ drop_zero_cents cs

-- "% OFF" and "Special Offer"
abbrev pub percent_off : Text
percent_off = b'%' ∷ b' ' ∷ b'O' ∷ b'F' ∷ b'F' ∷ []

abbrev pub special_offer : Text
special_offer =
    b'S' ∷ b'p' ∷ b'e' ∷ b'c' ∷ b'i' ∷ b'a' ∷ b'l' ∷ b' ' ∷ b'O' ∷ b'f' ∷ b'f' ∷ b'e' ∷ b'r' ∷ []

abbrev derived_badge : OfferType → Option ℕ → Option Text
derived_badge kind none = none
derived_badge percentage (some value) =
    some (drop_zero_cents (from_minor_units (pos value)) ++ percent_off)
derived_badge fixed (some value) = some special_offer

abbrev pub custom_label : Option Text → Option Text
custom_label none = none
custom_label (some label) = elim (trim label) [ [] ↦ none | c ∷ cs ↦ some (c ∷ cs) ]

abbrev badge_of : Option (OfferType × Text) → Option Text → Option Text
badge_of none label = none
badge_of (some (kind, value)) none = derived_badge kind (read_offer_value value)
badge_of (some _) (some custom) = some custom

unfoldable pub offer_badge_label : OfferInput → Option Text → Option Text
offer_badge_label offer label = badge_of (running offer) (custom_label label)
