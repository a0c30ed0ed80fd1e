-- ===== src/System/Steps.antt =====
-- What one call of the services on orders and payments may do to the status of each order.
use restaurant_qr_ordering_s.Base.{
  ℕ, ◌≡◌, refl, subst, sym, ap, ◌∙◌, not, Option, none, some, [], ◌∷◌, ◌++◌, ◌==◌, find_by,
}
use restaurant_qr_ordering_s.Errors.{Result, ok, err}
use restaurant_qr_ordering_s.Store.{Db, Order, Customer}
use restaurant_qr_ordering_s.Orders.Pricing.{load_charges, price_items}
use restaurant_qr_ordering_s.Orders.Gates.{Double}
use restaurant_qr_ordering_s.Orders.Place.{
  PlaceOrderInput, Guest, place_order, place_order_tx, resolve_table, lacks_table, order_kind,
  upsert_customer, upsert_found, occupy, insert_order,
}
use restaurant_qr_ordering_s.Orders.Change.{serve_order}
use restaurant_qr_ordering_s.System.{Outside, Call, perform, reply_tx}
use restaurant_qr_ordering_s.System.Advances.{
  Advances, Advances-same, Commits, Commits->>=, Commits-throw_if, commit-Advances, append-Advances,
}
use restaurant_qr_ordering_s.System.Moves.{
  update_status-Advances, cancel_order-Advances, reject_order-Advances,
  cancel_held_order_by_token-Advances, approve_order-Advances, add_items-Advances,
}
use restaurant_qr_ordering_s.System.Settles.{
  record_cash_advance-Advances, record_cash_payment-Advances, settle_order_payment-Commits,
  refund_payment-Advances, initiate_online_payment-Commits, confirm_online_payment-Advances,
  handle_razorpay_webhook-Advances,
}

upsert_found-orders :
    (guest : Guest) (db : Db) (c : Option Customer) → (upsert_found guest db c).1.orders ≡ db.orders
upsert_found-orders guest db none = refl
upsert_found-orders guest db (some c) = refl

occupy-orders : (t : Option ℕ) (db : Db) → (occupy t db).orders ≡ db.orders
occupy-orders none db = refl
occupy-orders (some t) db = refl

placed-Advances :
    (table : Option ℕ) (o : Order) (before after : Db)
    → after.orders ≡ before.orders
    → Advances before.orders (occupy table (insert_order o after)).orders
placed-Advances table o before after same =
    subst (Advances before.orders)
      (ap (λ os. os ++ (o ∷ [])) (sym same) ∙ sym (occupy-orders table (insert_order o after)))
      (append-Advances before.orders (o ∷ []))

place_order-Advances :
    (d : Double) (now token : ℕ) (input : PlaceOrderInput) (db : Db)
    → Advances db.orders (place_order d now token input db).1.orders
unfolding place_order place_order_tx upsert_customer
place_order-Advances d now token input db = commit-Advances db _ _ (
    Commits-throw_if {B = Order} db.orders (not (load_charges db.settings).is_accepting_orders) _ _
      λ accepting.
        Commits->>= db.orders (resolve_table db.tables input.qr_token) _ λ table resolved.
          Commits-throw_if db.orders (lacks_table (order_kind input.kind table) table) _ _ λ seated.
            Commits->>= db.orders (price_items (upsert_customer input.guest db).1.foods input.items)
              _
              λ p priced. placed-Advances table _ db (upsert_customer input.guest db).1 (
                upsert_found-orders input.guest db
                  (find_by (λ c. c.phone == input.guest.phone) db.customers)))

reply_tx-Advances :
    {A : Type 0} (db : Db) (r : Result (A × Db))
    → Commits db.orders r
    → Advances db.orders (reply_tx db r).1.orders
reply_tx-Advances db (ok (a, after)) h = h
reply_tx-Advances db (err e) h = Advances-same db.orders

module _ (w : Outside) where
  pub perform-Advances : (call : Call) (db : Db) → Advances db.orders (perform w call db).1.orders
  unfolding serve_order
  perform-Advances (Call.place_order now token input) db =
      place_order-Advances w.double now token input db
  perform-Advances (Call.add_items id requests) db = add_items-Advances id requests db
  perform-Advances (Call.update_status now id to actor) db =
      update_status-Advances now id to actor db
  perform-Advances (Call.serve_order now id actor) db = update_status-Advances now id _ actor db
  perform-Advances (Call.cancel_order now id reason actor) db =
      cancel_order-Advances now id reason actor db
  perform-Advances (Call.reject_order now id reason actor) db =
      reject_order-Advances now id reason actor db
  perform-Advances (Call.cancel_held_order_by_token now token) db =
      cancel_held_order_by_token-Advances now token db
  perform-Advances (Call.approve_order now id actor) db = approve_order-Advances now id actor db
  perform-Advances (Call.record_cash_advance now receipt id actor) db =
      record_cash_advance-Advances now receipt id actor db
  perform-Advances (Call.record_cash_payment now receipt id) db =
      record_cash_payment-Advances now receipt id db
  perform-Advances (Call.settle_order_payment now receipt id status method reason) db =
      reply_tx-Advances db _ (settle_order_payment-Commits now receipt id status method reason db)
  perform-Advances (Call.refund_payment now id reason) db = refund_payment-Advances now id reason db
  perform-Advances (Call.initiate_online_payment now provider minted answer token) db =
      reply_tx-Advances db _ (initiate_online_payment-Commits now provider minted answer token db)
  perform-Advances (Call.confirm_online_payment now receipt provider id c) db =
      confirm_online_payment-Advances w.hmac now receipt provider id c db
  perform-Advances (Call.handle_razorpay_webhook now receipt provider body signature) db =
      handle_razorpay_webhook-Advances w.hmac w.parse now receipt provider body signature db
