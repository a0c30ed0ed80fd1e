-- ===== src/Client/Quote.antt =====
-- The total that the cart quotes against the bill that the server writes. The menu sends a Decimal
-- column as the text that `decimal_text` makes of it; `written` makes a string of a text.
use Prim.Native.String.{String}
use restaurant_qr_ordering_s.Base.{
  ℕ, ◌+◌, ◌≡◌, refl, sym, ◌∙◌, ap, Bool, true, false, Option, none, some, List, [], ◌∷◌, arith, ◌⊎◌,
  inl, inr, Bool-cases, All, All-find_by,
}
use restaurant_qr_ordering_s.Base.Int.{pos}
use restaurant_qr_ordering_s.Errors.{ok, err, bad_request, Reason}
use restaurant_qr_ordering_s.Money.{to_minor_units, from_minor_units, percent_of}
use restaurant_qr_ordering_s.Money.Digits.{
  Text, trim, trim_start, trim_end, match_decimal, span_digits,
}
use restaurant_qr_ordering_s.Offer.{OfferInput, OfferType, effective_price_minor, running, charge}
use restaurant_qr_ordering_s.Offer.Price.{Stores}
use restaurant_qr_ordering_s.Store.{Food, Item}
use restaurant_qr_ordering_s.Menu.Validity.{IsPriced}
use restaurant_qr_ordering_s.Orders.Pricing.{
  Request, find_food, line_of, price_items, compute_totals,
}
use restaurant_qr_ordering_s.Client.Amounts.{to_minor, quote_totals, sum_lines_minor}
use restaurant_qr_ordering_s.Client.Offers.{effective_price, price_or, running_price}
use restaurant_qr_ordering_s.Client.Cart.{MenuRow, CartItem, subtotal_minor}
use restaurant_qr_ordering_s.Client.Agreement.{readable-to_minor, apply_percent_minor-percent_of}

-- The bill that is quoted for a subtotal is the server's: the same tax and service charge, and the
-- same total, for readable percentages and an order without a discount.
pub quote_totals-compute_totals :
    (subtotal t s : ℕ) (tax service : Text)
    → to_minor_units tax ≡ ok t
    → to_minor_units service ≡ ok s
    → let quote = quote_totals (pos subtotal) tax service in
      let bill = compute_totals subtotal t s 0 in
      (quote.total ≡ from_minor_units (pos bill.total_amount))
      × (quote.tax ≡ from_minor_units (pos (percent_of subtotal t)))
      × (quote.service_charge ≡ from_minor_units (pos (percent_of subtotal s)))
unfolding quote_totals compute_totals
quote_totals-compute_totals subtotal t s tax service reads_tax reads_service =
    let taxed = apply_percent_minor-percent_of subtotal t tax (readable-to_minor tax t reads_tax) in
    let served =
      apply_percent_minor-percent_of subtotal s service
        (readable-to_minor service s reads_service) in
    rw (taxed, served) (ap (λ n. from_minor_units (pos n)) (omega arith), refl, refl)

empty-unreadable : to_minor_units [] ≡ err (bad_request Reason.invalid_monetary_value)
unfolding to_minor_units trim trim_start trim_end match_decimal span_digits
empty-unreadable = refl

running-off : (offer : OfferInput) → offer.is_offer_active ≡ false → running offer ≡ none
unfolding running
running-off offer off = rw off refl

shown_idle :
    (on : Bool) (stored : Option Text)
    → (stored ≡ none) ⊎ (on ≡ false)
    → running_price on stored ≡ none
shown_idle false stored idle = refl
shown_idle true none idle = refl
shown_idle true (some []) idle = refl
shown_idle true (some (c ∷ cs)) (inl e) = cc
shown_idle true (some (c ∷ cs)) (inr e) = cc

module _ (decimal_text : ℕ → Text) (prints : (n : ℕ) → to_minor_units (decimal_text n) ≡ ok n) where
  -- The row of a dish on the guest's menu.
  abbrev pub menu_row : Food → MenuRow
  menu_row f = record {
    id = f.id;
    name = f.name;
    image_url = f.image_url;
    priced = record {
      price = decimal_text f.price;
      is_offer_active = f.offer.is_offer_active;
      offer_price = f.offer_price;
    };
  }

  -- A line of the cart is current: its dish is on the menu and available, and its price is the one
  -- that the menu shows.
  abbrev pub IsCurrent : List Food → CartItem → Type 0
  IsCurrent foods i =
      (f : Food) × (find_food i.food_id foods ≡ some f)
      × (f.is_available ≡ true)
      × (i.price ≡ effective_price (menu_row f).priced)

  shown_list :
      (on : Bool) (stored : Option Text) (p : ℕ) (run : Option (OfferType × Text))
      → (stored ≡ none) ⊎ (on ≡ false)
      → run ≡ none
      → to_minor_units (price_or (decimal_text p) (running_price on stored)) ≡ ok (charge p run)
  shown_list on stored p run idle h =
      ap (λ r. to_minor_units (price_or (decimal_text p) r)) (shown_idle on stored idle)
      ∙ prints p
      ∙ ap (λ r. ok (charge p r)) (sym h)

  -- The menu shows the price that is charged.
  shown_price :
      (p : ℕ) (offer : OfferInput) (stored : Option Text)
      → Stores p offer stored
      → to_minor_units (price_or (decimal_text p) (running_price offer.is_offer_active stored))
        ≡ ok (effective_price_minor p offer)
  unfolding effective_price_minor
  shown_price p offer none h = shown_list offer.is_offer_active none p (running offer) (inl refl) h
  shown_price p offer (some []) h = cc (empty-unreadable, h)
  shown_price p offer (some (c ∷ cs)) h = elim (Bool-cases offer.is_offer_active) [
    | inl on ↦
        ap (λ b. to_minor_units (price_or (decimal_text p) (running_price b (some (c ∷ cs))))) on
        ∙ h
    | inr off ↦
        shown_list offer.is_offer_active (some (c ∷ cs)) p (running offer) (inr off)
          (running-off offer off)
  ]

  -- A row of the cart against the row of the order.
  current-to_minor :
      (foods : List Food) (i : CartItem) (f : Food)
      → All IsPriced foods
      → find_food i.food_id foods ≡ some f
      → i.price ≡ effective_price (menu_row f).priced
      → to_minor i.price ≡ pos (effective_price_minor f.price f.offer)
  unfolding effective_price
  current-to_minor foods i f priced at price =
      let (stores, exact) = All-find_by IsPriced _ foods f priced at in
      readable-to_minor i.price _
        (ap to_minor_units price ∙ shown_price f.price f.offer f.offer_price stores)

  module _ (written : Option Text → Option String) where
    abbrev pub request_of : CartItem → Request
    request_of i = record { food_id = i.food_id; quantity = i.quantity; notes = written i.notes }

    -- The items of the order that the checkout sends.
    abbrev pub requests_of : List CartItem → List Request
    requests_of [] = []
    requests_of (i ∷ is) = request_of i ∷ requests_of is

    -- What the server makes of a cart whose lines are current.
    abbrev Billed : List Food → List CartItem → Type 0
    Billed foods items =
        (lines : List Item) × (subtotal : ℕ) × (price_items foods (requests_of items)
          ≡ ok (lines, subtotal))
        × (subtotal_minor items ≡ pos subtotal)

    subtotal_minor-price_items :
        (foods : List Food) (items : List CartItem)
        → All IsPriced foods
        → All (IsCurrent foods) items
        → Billed foods items
    unfolding price_items sum_lines_minor
    subtotal_minor-price_items foods [] priced current = ([], 0, refl, refl)
    subtotal_minor-price_items foods (i ∷ is) priced ((f, at, on, price), current) =
        let (lines, subtotal, rest, sums) = subtotal_minor-price_items foods is priced current in
        let line = line_of (request_of i) f in
        (
          line ∷ lines,
          line.line_total + subtotal,
          rw (at, on, rest) refl,
          rw (current-to_minor foods i f priced at price, sums) refl,
        )

    -- The total that the cart quotes is the total of the bill: a cart whose lines show the present
    -- menu is priced by the server without an error, and for readable percentages the quoted total is
    -- the text of the total amount that the server computes for the order, without a discount.
    pub quote_totals-price_items :
        (foods : List Food) (items : List CartItem) (t s : ℕ) (tax service : Text)
        → All IsPriced foods
        → All (IsCurrent foods) items
        → to_minor_units tax ≡ ok t
        → to_minor_units service ≡ ok s
        → (lines : List Item) × (subtotal : ℕ) × (price_items foods (requests_of items)
            ≡ ok (lines, subtotal))
          × ((quote_totals (subtotal_minor items) tax service).total
              ≡ from_minor_units (pos (compute_totals subtotal t s 0).total_amount))
    quote_totals-price_items foods items t s tax service priced current reads_tax reads_service =
        let (lines, subtotal, billed, sums) =
          subtotal_minor-price_items foods items priced current in
        (
          lines,
          subtotal,
          billed,
          ap (λ n. (quote_totals n tax service).total) sums
              ∙ (quote_totals-compute_totals subtotal t s tax service reads_tax reads_service).0,
        )
