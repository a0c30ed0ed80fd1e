-- ===== src/Orders/Place/Laws.antt =====
-- Placing an order keeps the invariant of the order tables.
use restaurant_qr_ordering_s.Base.{
  ℕ, ◌+◌, ◌<◌, ◌≡◌, refl, not, Option, none, some, List, arith, ◌==◌, find_by, All-map,
}
use restaurant_qr_ordering_s.Store.{Db, Order, Item, Customer}
use restaurant_qr_ordering_s.Orders.Pricing.{Charges, price_items, compute_totals, load_charges}
use restaurant_qr_ordering_s.Orders.Pricing.Lines.{ArePriced}
use restaurant_qr_ordering_s.Orders.Gates.{Double, evaluate_hold, open_balance_minor}
use restaurant_qr_ordering_s.Orders.Gates.Decision.{evaluate_hold-IsConsistent}
use restaurant_qr_ordering_s.Orders.Release.{lines_total}
use restaurant_qr_ordering_s.Orders.Release.Laws.{ArePriced-lines, Prices-ok}
use restaurant_qr_ordering_s.Orders.Place.{
  Guest, PlaceOrderInput, resolve_table, order_kind, lacks_table, upsert_found, upsert_customer,
  asked_advance, drafted, place_order_tx, placed_effects, place_order,
}
use restaurant_qr_ordering_s.Orders.Validity.{
  IsBilled, IsIssued, IsValid, commit-IsValid, Keeps->>=, Keeps-throw_if,
}
use restaurant_qr_ordering_s.Orders.Validity.Rows.{insert_order-IsValid}

IsIssued-id_later : (n k : ℕ) (o : Order) → IsIssued n k o → IsIssued (n + 1) k o
IsIssued-id_later n k o h = omega arith

upsert_found-IsValid :
    (guest : Guest) (db : Db) (c : Option Customer)
    → IsValid db
    → IsValid (upsert_found guest db c).1
upsert_found-IsValid guest db (some c) v = record {
  billed = v.billed;
  seated = v.seated;
  issued = v.issued;
  distinct = v.distinct;
}
upsert_found-IsValid guest db none v = record {
  billed = v.billed;
  seated = v.seated;
  issued =
      All-map (IsIssued db.next_id db.order_seq) (IsIssued (db.next_id + 1) db.order_seq)
        (IsIssued-id_later db.next_id db.order_seq) db.orders v.issued;
  distinct = v.distinct;
}

upsert_customer-IsValid :
    (guest : Guest) (db : Db) → IsValid db → IsValid (upsert_customer guest db).1
unfolding upsert_customer
upsert_customer-IsValid guest db v =
    upsert_found-IsValid guest db (find_by (λ c. c.phone == guest.phone) db.customers) v

asked_pos : (n : ℕ) → 0 < n → 0 < (elim (asked_advance n) [ none ↦ 0 | some a ↦ a ])
asked_pos n h = ground arith

module _ (d : Double) (now token : ℕ) (input : PlaceOrderInput) where
  new_order-IsBilled :
      (charges : Charges) (table : Option ℕ) (customer : ℕ) (db : Db) (lines : List Item)
      (subtotal : ℕ)
      → ArePriced db.foods input.items lines
      → subtotal ≡ lines_total lines
      → IsBilled (drafted d now token input charges table customer lines subtotal db)
  unfolding compute_totals
  new_order-IsBilled charges table customer db lines subtotal priced sum =
      let total_amount_of =
        (compute_totals subtotal charges.tax_percent charges.service_percent 0).total_amount in
      record {
        lines = ArePriced-lines db input.items lines priced;
        sums = sum;
        totals = omega arith;
        advance_due = λ e.
            asked_pos
              (evaluate_hold d
                (open_balance_minor now table (some customer) db.orders db.payments
                  + total_amount_of)
                total_amount_of charges.gates).advance_minor
              ((evaluate_hold-IsConsistent d
                  (open_balance_minor now table (some customer) db.orders db.payments
                    + total_amount_of)
                  total_amount_of charges.gates).advance_due
                e);
      }

  -- Placing an order keeps the invariant of the order tables, for every request and whether it is
  -- accepted or refused: the new order has fresh keys, a bill that is the sum of its lines, an advance
  -- to pay if it waits for one, and an occupied table if it has one.
  pub place_order-IsValid : (db : Db) → IsValid db → IsValid (place_order d now token input db).1
  unfolding place_order
  place_order-IsValid db v =
      let charges = load_charges db.settings in
      let made = upsert_customer input.guest db in
      commit-IsValid db placed_effects (place_order_tx d now token input db) v (
        Keeps-throw_if (not charges.is_accepting_orders) _ _ λ _.
          Keeps->>= (resolve_table db.tables input.qr_token) _ λ table _.
            Keeps-throw_if (lacks_table (order_kind input.kind table) table) _ _ λ _.
              Keeps->>= (price_items made.1.foods input.items) _ λ p priced.
                let (lines_ok, sum_ok) = Prices-ok made.1 input.items p priced in
                insert_order-IsValid made.1
                  (drafted d now token input charges table made.0 p.0 p.1 made.1)
                  (upsert_customer-IsValid input.guest db v)
                  (new_order-IsBilled charges table made.0 made.1 p.0 p.1 lines_ok sum_ok) refl
                  refl)
