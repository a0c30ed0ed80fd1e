-- ===== src/Orders/Pricing/Lines.antt =====
-- What `priceItems` charges: each line is the dish's effective price in the database, and nothing
-- that is missing or sold out is ever priced.
use restaurant_qr_ordering_s.Base.{
  ℕ, ◌+◌, ◌*◌, ◌≡◌, refl, ◌⊎◌, inl, inr, true, false, none, some, List, [], ◌∷◌, arith,
  Option-cases, Bool-cases, sum_of,
}
use restaurant_qr_ordering_s.Errors.{Result, ok, err, ◌>>=◌}
use restaurant_qr_ordering_s.Store.{Food, Item}
use restaurant_qr_ordering_s.Offer.{effective_price_minor}
use restaurant_qr_ordering_s.Orders.Pricing.{Request, find_food, price_line, price_items}

-- The line that the database gives for a request: a snapshot of an available dish, at its price after
-- the offer.
abbrev pub IsLineOf : List Food → Request → Item → Type 0
IsLineOf foods r line =
    (f : Food) × (find_food r.food_id foods ≡ some f)
    × (f.is_available ≡ true)
    × (line ≡ record {
      food_id = f.id;
      food_name = f.name;
      unit_price = effective_price_minor f.price f.offer;
      quantity = r.quantity;
      line_total = effective_price_minor f.price f.offer * r.quantity;
      notes = r.notes;
    })

-- One line for each request, in the order of the requests.
abbrev pub ArePriced : List Food → List Request → List Item → Type 0
ArePriced foods [] [] = Unit
ArePriced foods [] (i ∷ is) = ⊥
ArePriced foods (r ∷ rs) [] = ⊥
ArePriced foods (r ∷ rs) (i ∷ is) = IsLineOf foods r i × ArePriced foods rs is

-- A dish that is not on the menu, or is sold out.
abbrev pub IsRefused : List Food → Request → Type 0
IsRefused foods r =
    (find_food r.food_id foods ≡ none)
    ⊎ ((f : Food) × (find_food r.food_id foods ≡ some f) × (f.is_available ≡ false))

abbrev pub SomeRefused : List Food → List Request → Type 0
SomeRefused foods [] = ⊥
SomeRefused foods (r ∷ rs) = IsRefused foods r ⊎ SomeRefused foods rs

abbrev pub Prices : List Food → List Request → Result (List Item × ℕ) → Type 0
Prices foods rs (ok (lines, subtotal)) =
    ArePriced foods rs lines × (subtotal ≡ sum_of (λ i. i.line_total) lines)
Prices foods rs (err _) = SomeRefused foods rs

abbrev PricesLine : List Food → Request → Result Item → Type 0
PricesLine foods r (ok line) = IsLineOf foods r line
PricesLine foods r (err _) = IsRefused foods r

price_line-PricesLine : (foods : List Food) (r : Request) → PricesLine foods r (price_line foods r)
price_line-PricesLine foods r = elim (Option-cases (find_food r.food_id foods)) [
  | inl missing ↦ rw missing (inl missing)
  | inr (f, e) ↦ elim (Bool-cases f.is_available) [
    | inl there ↦ rw (e, there) (f, e, there, refl)
    | inr sold ↦ rw (e, sold) (inr (f, e, sold))
  ]
]

Prices-cons :
    (foods : List Food) (r : Request) (rs : List Request) (line : Result Item)
    (rest : Result (List Item × ℕ))
    → PricesLine foods r line
    → Prices foods rs rest
    → Prices foods (r ∷ rs) (line >>= λ l. rest >>= λ ls. ok (l ∷ ls.0, l.line_total + ls.1))
Prices-cons foods r rs (ok line) (ok (lines, subtotal)) p q = ((p, q.0), omega (arith, q.1))
Prices-cons foods r rs (ok line) (err x) p q = inr q
Prices-cons foods r rs (err x) rest p q = inl p

-- `priceItems` prices all or nothing. A success has one line for each request, in their order, each
-- at the effective price of an available dish of the database, and the subtotal is the sum of the
-- line totals. It throws only if some request names a missing or a sold-out dish.
pub price_items-Prices :
    (foods : List Food) (rs : List Request) → Prices foods rs (price_items foods rs)
unfolding price_items
price_items-Prices foods [] = (tt, refl)
price_items-Prices foods (r ∷ rs) =
    Prices-cons foods r rs (price_line foods r) (price_items foods rs)
      (price_line-PricesLine foods r) (price_items-Prices foods rs)
