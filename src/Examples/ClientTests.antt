-- ===== src/Examples/ClientTests.antt =====
-- The theorems on the client at concrete inputs.
use restaurant_qr_ordering_s.Base.{
  ◌-◌, ℕ, ◌≡◌, refl, ◌↔◌, inr, true, false, none, List, [], ◌∷◌, All, arith,
}
use restaurant_qr_ordering_s.Base.Int.{pos}
use restaurant_qr_ordering_s.Errors.{ok}
use restaurant_qr_ordering_s.Money.{from_minor_units}
use restaurant_qr_ordering_s.Money.Digits.{Text}
use restaurant_qr_ordering_s.Money.RoundTrip.{to_minor_units-from_minor_units}
use restaurant_qr_ordering_s.Offer.{
  OfferType, running, derive_offer_price, assert_offer_is_coherent,
}
use restaurant_qr_ordering_s.Store.{Item}
use restaurant_qr_ordering_s.Orders.Pricing.{GateSettings, price_items, compute_totals}
use restaurant_qr_ordering_s.Orders.Gates.{hundredths, evaluate_hold}
use restaurant_qr_ordering_s.Orders.Gates.Decision.{hundredths-IsExact}
use restaurant_qr_ordering_s.Client.Amounts.{quote_totals}
use restaurant_qr_ordering_s.Client.Offers.{effective_price, preview_offer_price, offer_problem}
use restaurant_qr_ordering_s.Client.Cart.{CartItem, CartAction, act_all, subtotal_minor}
use restaurant_qr_ordering_s.Client.Advance.{
  calculate_advance_details, calculate_advance_details-evaluate_hold,
}
use restaurant_qr_ordering_s.Client.Preview.{
  active, preview_offer_price-derive_offer_price, offer_problem-assert_offer_is_coherent,
}
use restaurant_qr_ordering_s.Client.Quote.{menu_row, requests_of, quote_totals-price_items}
use restaurant_qr_ordering_s.Client.Filled.{IsCounted, act_all-IsCounted}
use restaurant_qr_ordering_s.Examples.Data.{thali}

abbrev shown : Text
shown = from_minor_units (pos 100_000)

abbrev two_thalis : CartItem
two_thalis = record {
  food_id = 1;
  name = "Thali";
  price =
      effective_price
        (menu_row (λ n. from_minor_units (pos n)) to_minor_units-from_minor_units thali).priced;
  list_price = none;
  image_url = none;
  quantity = 2;
  notes = none;
}

quote_totals-price_items_example :
    (lines : List Item) × (subtotal : ℕ) × (price_items (thali ∷ []) (
        requests_of
          (λ n. from_minor_units (pos n))
          to_minor_units-from_minor_units
          (λ notes. none)
          (two_thalis ∷ []))
      ≡ ok (lines, subtotal))
    × ((quote_totals
          (subtotal_minor (two_thalis ∷ []))
          (from_minor_units (pos 500))
          (from_minor_units (pos 1000))).total
        ≡ from_minor_units (pos (compute_totals subtotal 500 1000 0).total_amount))
unfolding running
quote_totals-price_items_example =
    quote_totals-price_items (λ n. from_minor_units (pos n)) to_minor_units-from_minor_units
      (λ notes. none) (thali ∷ []) (two_thalis ∷ []) 500 1000 (from_minor_units (pos 500))
      (from_minor_units (pos 1000)) ((refl, λ on. cc), tt) ((thali, refl, refl, refl), tt)
      (to_minor_units-from_minor_units 500) (to_minor_units-from_minor_units 1000)

abbrev visit : List CartAction
visit =
    CartAction.add (menu_row (λ n. from_minor_units (pos n)) to_minor_units-from_minor_units thali)
      none
    ∷ CartAction.more 1
    ∷ CartAction.note 1 (b'h' ∷ b'o' ∷ b't' ∷ [])
    ∷ CartAction.less 1
    ∷ []

act_all-IsCounted_example :
    All
      (IsCounted (λ n. from_minor_units (pos n)) to_minor_units-from_minor_units (thali ∷ []))
      (act_all visit [])
act_all-IsCounted_example =
    act_all-IsCounted (λ n. from_minor_units (pos n)) to_minor_units-from_minor_units (thali ∷ [])
      visit ((thali, refl, refl, refl), (tt, (tt, (tt, tt))))

preview_offer_price-derive_offer_price_example :
    derive_offer_price shown (active OfferType.percentage (from_minor_units (pos 2000)))
    ≡ ok (preview_offer_price shown (active OfferType.percentage (from_minor_units (pos 2000))))
preview_offer_price-derive_offer_price_example =
    preview_offer_price-derive_offer_price shown (from_minor_units (pos 2000)) 100_000 2000
      OfferType.percentage (to_minor_units-from_minor_units 100_000)
      (to_minor_units-from_minor_units 2000) (omega arith) (omega arith)

offer_problem-assert_offer_is_coherent_example :
    (offer_problem shown (active OfferType.fixed (from_minor_units (pos 2000))) ≡ none) ↔ (
      assert_offer_is_coherent shown (active OfferType.fixed (from_minor_units (pos 2000))) ≡ ok tt)
offer_problem-assert_offer_is_coherent_example =
    offer_problem-assert_offer_is_coherent shown 100_000
      (active OfferType.fixed (from_minor_units (pos 2000)))
      (to_minor_units-from_minor_units 100_000)

abbrev at_3000 : GateSettings
at_3000 = record {
  threshold_minor = 300_000;
  advance_percent = 20;
  approval_required = false;
  advance_required = true;
}

calculate_advance_details_example :
    ((calculate_advance_details hundredths 420_000).advance_minor
      ≡ (evaluate_hold hundredths 500_000 420_000 at_3000).advance_minor)
    × ((calculate_advance_details hundredths 420_000).remaining_minor
        ≡ 420_000 - (evaluate_hold hundredths 500_000 420_000 at_3000).advance_minor)
calculate_advance_details_example =
    calculate_advance_details-evaluate_hold hundredths 1_000_000 500_000 420_000 at_3000
      (hundredths-IsExact 1_000_000) (inr refl) refl
