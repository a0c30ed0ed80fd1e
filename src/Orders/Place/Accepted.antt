-- ===== src/Orders/Place/Accepted.antt =====
-- Which requests `placeOrder` accepts, and what it writes for them.
use restaurant_qr_ordering_s.Base.{
  ℕ, ◌+◌, ◌≡◌, refl, sym, ◌∙◌, ◌⊎◌, inl, inr, true, false, Option, none, some, List, [], ◌∷◌, ◌++◌,
  ◌==◌, Bool-cases, find_by, ap, subst,
}
use restaurant_qr_ordering_s.Errors.{Result, ok, err, Result-cases}
use restaurant_qr_ordering_s.Store.{Db, Order, Item, PaymentStatus}
use restaurant_qr_ordering_s.Orders.Pricing.{price_items, compute_totals, load_charges}
use restaurant_qr_ordering_s.Orders.Pricing.Lines.{
  ArePriced, SomeRefused, Prices, price_items-Prices,
}
use restaurant_qr_ordering_s.Orders.Gates.{Double, Hold, evaluate_hold, open_balance_minor}
use restaurant_qr_ordering_s.Orders.Release.{lines_total}
use restaurant_qr_ordering_s.Orders.Place.{
  Guest, PlaceOrderInput, resolve_table, order_kind, lacks_table, upsert_found, upsert_customer,
  asked_advance, occupy, drafted, place_order_tx, insert_order,
}

-- The parts of a database that a guest's details do not touch.
abbrev SameShop : Db → Db → Type 0
SameShop db after =
    (after.orders ≡ db.orders) × (after.payments ≡ db.payments) × (after.foods ≡ db.foods)

upsert-SameShop : (g : Guest) (db : Db) → SameShop db (upsert_customer g db).1
unfolding upsert_customer
upsert-SameShop g db =
    elim (find_by (λ c. c.phone == g.phone) db.customers)
      as (λ c. SameShop db (upsert_found g db c).1) [
        | none ↦ (refl, refl, refl)
        | some c ↦ (refl, refl, refl)
      ]

occupy-orders : (table : Option ℕ) (db : Db) → (occupy table db).orders ≡ db.orders
occupy-orders none db = refl
occupy-orders (some t) db = refl

module _ (d : Double) (now : ℕ) (input : PlaceOrderInput) (db : Db) where
  -- The bill of an order, from its lines and the charges of the house.
  abbrev pub bill_of : Order → ℕ
  bill_of o =
      let charges = load_charges db.settings in
      (compute_totals (lines_total o.items) charges.tax_percent charges.service_percent
        0).total_amount

  -- The decision of the gates, on what its table or guest owes already and on the order itself.
  abbrev pub hold_of : Order → Hold
  hold_of o =
      evaluate_hold d
        (open_balance_minor now o.table_id o.customer_id db.orders db.payments + o.total_amount)
        o.total_amount (load_charges db.settings).gates

  -- Why a request is refused.
  abbrev pub Refused : Type 0
  Refused =
      ((load_charges db.settings).is_accepting_orders ≡ false)
      ⊎ (((e : _) × (resolve_table db.tables input.qr_token ≡ err e))
          ⊎ (((table : Option ℕ) × (resolve_table db.tables input.qr_token ≡ ok table)
                × (lacks_table (order_kind input.kind table) table ≡ true))
              ⊎ SomeRefused db.foods input.items))

  abbrev pub Places : Result (Order × Db) → Type 0
  Places (err e) = Refused
  Places (ok (o, after)) =
      (after.orders ≡ db.orders ++ (o ∷ []))
      × (resolve_table db.tables input.qr_token ≡ ok o.table_id)
      × ArePriced db.foods input.items o.items
      × (o.total_amount ≡ bill_of o)
      × (o.status ≡ (hold_of o).status)
      × (o.advance_amount ≡ asked_advance (hold_of o).advance_minor)
      × (o.payment_status ≡ PaymentStatus.unpaid)

  place_written :
      (token : ℕ) (table : Option ℕ) (lines : List Item) (subtotal : ℕ) (customer : ℕ) (shop : Db)
      → SameShop db shop
      → resolve_table db.tables input.qr_token ≡ ok table
      → ArePriced db.foods input.items lines
      → subtotal ≡ lines_total lines
      → (let o =
            drafted d now token input
              (load_charges db.settings)
              table
              customer
              lines
              subtotal
              shop in
          Places (ok (o, occupy table (insert_order o shop))))
  place_written token table lines subtotal customer shop (same_orders, same_payments, _) found_table
        priced sum =
      let charges = load_charges db.settings in
      let order = drafted d now token input charges table customer lines subtotal shop in
      let total =
        (compute_totals subtotal charges.tax_percent charges.service_percent 0).total_amount in
      let hold : List Order → _ → Hold = λ os ps.
        evaluate_hold d (open_balance_minor now table (some customer) os ps + total) total
          charges.gates in
      let same_hold : hold shop.orders shop.payments ≡ hold db.orders db.payments =
        ap (λ os. hold os shop.payments) same_orders ∙ ap (hold db.orders) same_payments in
      (
        occupy-orders table (insert_order order shop) ∙ ap (λ os. os ++ (order ∷ [])) same_orders,
        found_table,
        priced,
        ap (λ n. (compute_totals n charges.tax_percent charges.service_percent 0).total_amount) sum,
        ap (λ h. h.status) same_hold,
        ap (λ h. asked_advance h.advance_minor) same_hold,
        refl,
      )

  -- Placing an order is refused only by a house that takes no orders, for a table that does not
  -- resolve or is missing for dining in, or for a dish that is missing or sold out. Any other request
  -- adds exactly one order: on the table of its QR token, with one line per request at the prices of
  -- the menu, the bill of these lines, unpaid, and with the status and the advance that the gates
  -- decide from what its table or guest owes already and its own bill.
  pub place_order_tx-Places : (token : ℕ) → Places (place_order_tx d now token input db)
  unfolding place_order_tx
  place_order_tx-Places token =
      let made = upsert_customer input.guest db in
      let same = upsert-SameShop input.guest db in
      let prices : Prices db.foods input.items (price_items made.1.foods input.items) =
        subst (λ fs. Prices db.foods input.items (price_items fs input.items)) (sym same.2)
          (price_items-Prices db.foods input.items) in
      elim (Bool-cases (load_charges db.settings).is_accepting_orders) [
        | inr closed ↦ rw closed (inl closed)
        | inl accepting ↦ elim (Result-cases (resolve_table db.tables input.qr_token)) [
          | inl (e, k) ↦ rw (accepting, k) (inr (inl (e, k)))
          | inr (table, k) ↦ elim (Bool-cases (lacks_table (order_kind input.kind table) table)) [
            | inl lacks ↦ rw (accepting, k, lacks) (inr (inr (inl (table, k, lacks))))
            | inr fine ↦ elim (Result-cases (price_items made.1.foods input.items)) [
              | inl (e, p) ↦
                  rw (accepting, k, fine, p)
                    (inr (inr (inr (subst (Prices db.foods input.items) p prices))))
              | inr ((lines, subtotal), p) ↦
                  let (priced, sum) = subst (Prices db.foods input.items) p prices in
                  rw (accepting, k, fine, p)
                    (place_written token table lines subtotal made.0 made.1 same k priced sum)
            ]
          ]
        ]
      ]
