-- ===== src/Client/Offers.antt =====
-- client/src/lib/offer.ts. A `null` or missing field is `none`; the texts of `offerProblem` are the
-- constructors of `Problem`.
use restaurant_qr_ordering_s.Base.{
  Bool, true, false, not, Option, none, some, [], ◌∷◌, if◌then◌else◌,
}
use restaurant_qr_ordering_s.Base.Int.{ℤ, pos, ◌-ℤ◌, leb_ℤ, min_ℤ, max_ℤ}
use restaurant_qr_ordering_s.Money.Digits.{Text, trim}
use restaurant_qr_ordering_s.Offer.{OfferType, percentage, fixed, OfferInput}
use restaurant_qr_ordering_s.Client.Amounts.{to_minor, from_minor, apply_percent_minor}

-- The fields of a menu row that its price is shown from.
pub record Priced : Type 0 where
  pub price : Text
  pub is_offer_active : Bool
  pub offer_price : Option Text

-- The offer price, where the offer is active and the price is not an empty text.
abbrev pub running_price : Bool → Option Text → Option Text
running_price false p = none
running_price true none = none
running_price true (some []) = none
running_price true (some (c ∷ cs)) = some (c ∷ cs)

abbrev pub is_some {ℓ} : {A : Type ℓ} → Option A → Bool
is_some none = false
is_some (some a) = true

abbrev pub has_offer : Priced → Bool
has_offer f = is_some (running_price f.is_offer_active f.offer_price)

abbrev pub price_or : Text → Option Text → Text
price_or list none = list
price_or list (some offer) = offer

unfoldable pub effective_price : Priced → Text
effective_price f = price_or f.price (running_price f.is_offer_active f.offer_price)

abbrev pub strikethrough_price : Priced → Option Text
strikethrough_price f = if has_offer f then some f.price else none

abbrev pub saving : Priced → Option Text → ℤ
saving f none = pos 0
saving f (some offer) = to_minor f.price -ℤ to_minor offer

unfoldable pub saving_minor : Priced → ℤ
saving_minor f = saving f (running_price f.is_offer_active f.offer_price)

-- A value that is more than white space.
abbrev pub typed_value : Option Text → Option Text
typed_value none = none
typed_value (some value) = elim (trim value) [ [] ↦ none | c ∷ cs ↦ some value ]

abbrev pub filled_in : Option OfferType → Option Text → Option (OfferType × Text)
filled_in none value = none
filled_in (some kind) none = none
filled_in (some kind) (some value) = some (kind, value)

abbrev pub raw_minor : ℤ → OfferType → Text → ℤ
raw_minor price percentage value = apply_percent_minor price value
raw_minor price fixed value = to_minor value

abbrev pub preview_filled : Text → Option (OfferType × Text) → Option Text
preview_filled price none = none
preview_filled price (some (kind, value)) =
    if leb_ℤ (to_minor price) (pos 0)
    then none
    else if leb_ℤ (to_minor value) (pos 0)
    then none
    else some (
        from_minor (
          to_minor price
          -ℤ min_ℤ (max_ℤ (raw_minor (to_minor price) kind value) (pos 0)) (to_minor price)))

unfoldable pub preview_offer_price : Text → OfferInput → Option Text
preview_offer_price price offer =
    if not offer.is_offer_active
    then none
    else preview_filled price (filled_in offer.offer_type (typed_value offer.offer_value))

pub data Problem : Type 0 where
  choose_and_enter not_above_zero over_100 price_first more_than_price : Problem

abbrev pub value_problem : Text → OfferType → Text → Option Problem
value_problem price percentage value =
    if leb_ℤ (to_minor value) (to_minor (b'1' ∷ b'0' ∷ b'0' ∷ []))
    then none
    else some Problem.over_100
value_problem price fixed value =
    if leb_ℤ (to_minor price) (pos 0)
    then some Problem.price_first
    else if leb_ℤ (to_minor value) (to_minor price)
    then none
    else some Problem.more_than_price

abbrev pub filled_problem : Text → Option (OfferType × Text) → Option Problem
filled_problem price none = some Problem.choose_and_enter
filled_problem price (some (kind, value)) =
    if leb_ℤ (to_minor value) (pos 0)
    then some Problem.not_above_zero
    else value_problem price kind value

unfoldable pub offer_problem : Text → OfferInput → Option Problem
offer_problem price offer =
    if not offer.is_offer_active
    then none
    else filled_problem price (filled_in offer.offer_type (typed_value offer.offer_value))
