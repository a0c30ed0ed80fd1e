-- ===== src/Offer/Price.antt =====
-- The price after an offer: bounded by the list price, exact for an offer that the write path
-- accepted, and stored without loss.
use restaurant_qr_ordering_s.Base.{
  ℕ, sym, ◌∙◌, Bool, false, not, if◌then◌else◌, ◌+◌, ◌≤◌, ◌<◌, ◌≡◌, refl, inl, inr, leb,
  Option-cases, true, Option, none, some, arith,
}
use restaurant_qr_ordering_s.Base.Int.{pos}
use restaurant_qr_ordering_s.Errors.{Result, ok, ◌>>◌, throw_if, bad_request, Reason, Result-cases}
use restaurant_qr_ordering_s.Money.{to_minor_units, from_minor_units}
use restaurant_qr_ordering_s.Money.Digits.{Text}
use restaurant_qr_ordering_s.Money.Percent.{percent_of-le}
use restaurant_qr_ordering_s.Money.RoundTrip.{to_minor_units-from_minor_units}
use restaurant_qr_ordering_s.Offer.{
  charge, check_running, OfferType, percentage, fixed, OfferInput, raw_discount, discount_minor,
  discounted, running, check_value, read_offer_value, effective_price_minor, derive_offer_price,
  assert_offer_is_coherent,
}

discounted-le :
    (price : ℕ) (kind : OfferType) (value : Option ℕ) → discounted price kind value ≤ price
discounted-le price kind none = omega arith
discounted-le price kind (some v) = omega arith

charge-le : (price : ℕ) (on : Option (OfferType × Text)) → charge price on ≤ price
charge-le price none = omega arith
charge-le price (some (kind, value)) = discounted-le price kind (read_offer_value value)

-- Whatever the offer columns hold, a diner is never charged more than the list price.
effective_price_minor-le :
    (price : ℕ) (offer : OfferInput) → effective_price_minor price offer ≤ price
unfolding effective_price_minor
effective_price_minor-le price offer = charge-le price (running offer)

-- What a stored offer price reads as: the price that is charged, or nothing without a running offer.
abbrev pub Stores : ℕ → OfferInput → Option Text → Type 0
Stores price offer none = running offer ≡ none
Stores price offer (some text) = to_minor_units text ≡ ok (effective_price_minor price offer)

-- For a readable list price, `deriveOfferPrice` succeeds, and what it stores is read back as exactly
-- the price that `effectivePriceMinor` charges; nothing is stored only if no offer is running.
pub derive_offer_price-Stores :
    (text : Text) (price : ℕ) (offer : OfferInput)
    → to_minor_units text ≡ ok price
    → (stored : Option Text) × (derive_offer_price text offer ≡ ok stored)
      × Stores price offer stored
unfolding derive_offer_price effective_price_minor
derive_offer_price-Stores text price offer readable = elim (Option-cases (running offer)) [
  | inl idle ↦ (none, rw idle, idle)
  | inr (on, e) ↦ (
    some (from_minor_units (pos (charge price (some on)))),
    rw (e, readable),
    rw e (to_minor_units-from_minor_units (charge price (some on))),
  )
]

coherent_value :
    (text : Text) (price value : ℕ) (kind : OfferType)
    → to_minor_units text ≡ ok price
    → (throw_if (leb value 0) (bad_request Reason.discount_not_positive)
        >> check_value text kind value)
      ≡ ok tt
    → (0 < value) × (raw_discount price kind value ≤ price)
coherent_value text price value percentage readable h = ground (arith, percent_of-le price value)
coherent_value text price value fixed readable h = ground arith

abbrev pub IsExact : ℕ → OfferInput → Type 0
IsExact price offer =
    (kind : OfferType) × (text : Text) × (value : ℕ) × (running offer ≡ some (kind, text))
    × (to_minor_units text ≡ ok value)
    × (0 < value)
    × (effective_price_minor price offer + raw_discount price kind value ≡ price)

check_running-IsExact :
    (text : Text) (price : ℕ) (on : Option (OfferType × Text))
    → to_minor_units text ≡ ok price
    → check_running text on ≡ ok tt
    → (kind : OfferType) × (written : Text) × (value : ℕ) × (on ≡ some (kind, written))
      × (to_minor_units written ≡ ok value)
      × (0 < value)
      × (charge price on + raw_discount price kind value ≡ price)
unfolding discount_minor
check_running-IsExact text price none readable h = cc
check_running-IsExact text price (some (kind, written)) readable h =
    elim (Result-cases (to_minor_units written)) [
      | inl (x, e) ↦ cc (rw e at h)
      | inr (value, e) ↦
          let (positive, small) = coherent_value text price value kind readable (rw e at h) in
          (kind, written, value, refl, e, positive, ground arith)
    ]

unless_active :
    (active : Bool) (rest : Result (Unit {0}))
    → active ≡ true
    → (if not active then ok tt else rest) ≡ rest
unless_active true rest e = refl
unless_active false rest e = cc

-- An offer that `assertOfferIsCoherent` lets through on the write path is charged as written: its
-- value is read and positive, and the charged price and the whole discount add up to the list price.
pub assert_offer_is_coherent-IsExact :
    (text : Text) (price : ℕ) (offer : OfferInput)
    → to_minor_units text ≡ ok price
    → offer.is_offer_active ≡ true
    → assert_offer_is_coherent text offer ≡ ok tt
    → IsExact price offer
unfolding assert_offer_is_coherent effective_price_minor
assert_offer_is_coherent-IsExact text price offer readable active h =
    check_running-IsExact text price (running offer) readable
      (sym (unless_active offer.is_offer_active _ active) ∙ h)
