-- ===== src/Examples/PriceTests.antt =====
-- The theorems on amounts and offers at concrete inputs.
use restaurant_qr_ordering_s.Base.{◌≡◌, refl, true, Option, some, [], ◌∷◌}
use restaurant_qr_ordering_s.Base.Int.{pos}
use restaurant_qr_ordering_s.Errors.{ok}
use restaurant_qr_ordering_s.Money.{to_minor_units, from_minor_units}
use restaurant_qr_ordering_s.Money.Digits.{Text}
use restaurant_qr_ordering_s.Money.RoundTrip.{to_minor_units-from_minor_units}
use restaurant_qr_ordering_s.Offer.{
  OfferInput, percentage, derive_offer_price, running, assert_offer_is_coherent,
}
use restaurant_qr_ordering_s.Offer.Price.{
  Stores, IsExact, derive_offer_price-Stores, assert_offer_is_coherent-IsExact,
}

to_minor_units_example : to_minor_units (from_minor_units (pos 9909)) ≡ ok 9909
to_minor_units_example = to_minor_units-from_minor_units 9909

-- "20" percent off "250".
abbrev twenty_off : OfferInput
twenty_off = record {
  is_offer_active = true;
  offer_type = some percentage;
  offer_value = some (b'2' ∷ b'0' ∷ []);
}

abbrev price_text : Text
price_text = b'2' ∷ b'5' ∷ b'0' ∷ []

derive_offer_price_example :
    (stored : Option Text) × (derive_offer_price price_text twenty_off ≡ ok stored)
    × Stores 25_000 twenty_off stored
unfolding to_minor_units
derive_offer_price_example = derive_offer_price-Stores price_text 25_000 twenty_off refl

assert_offer_is_coherent_example : IsExact 25_000 twenty_off
unfolding to_minor_units assert_offer_is_coherent running
assert_offer_is_coherent_example =
    assert_offer_is_coherent-IsExact price_text 25_000 twenty_off refl refl refl
