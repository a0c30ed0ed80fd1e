-- ===== src/Orders/Place.antt =====
-- `placeOrder` of server/src/services/order.service.ts. The tracking token of 32 random bytes and the
-- instant of the call are arguments.
pub mod Laws
pub mod Accepted
use Prim.Native.String.{String}
use restaurant_qr_ordering_s.Base.{
  ℕ, ◌+◌, Bool, true, false, not, ◌&&◌, ◌||◌, Option, none, some, List, [], ◌∷◌, ◌++◌, ltb, ◌==◌,
  if◌then◌else◌, find_by, update_where,
}
use restaurant_qr_ordering_s.Errors.{
  Result, ok, err, ◌>>=◌, ◌>>◌, throw_if, bad_request, conflict, Reason,
}
use restaurant_qr_ordering_s.Status.{is_held}
use restaurant_qr_ordering_s.Store.{
  Db, Order, OrderType, dine_in, takeaway, Table, TableStatus, Customer, Item, PaymentStatus,
  Outcome, Effect, AuditAction, commit, set_table_status,
}
use restaurant_qr_ordering_s.Orders.Pricing.{
  Request, Totals, Charges, price_items, compute_totals, load_charges,
}
use restaurant_qr_ordering_s.Orders.Gates.{Double, Hold, evaluate_hold, open_balance_minor}

-- `phone`, `name` and `email`, as orders and bookings give them.
pub record Guest : Type 0 where
  pub phone : ℕ
  pub name : String
  pub email : Option String

pub record PlaceOrderInput : Type 0 where
  pub qr_token : Option ℕ
  pub kind : Option OrderType
  pub guest : Guest
  pub items : List Request
  pub notes : Option String

abbrev pub is_inactive : TableStatus → Bool
is_inactive TableStatus.inactive = true
is_inactive _ = false

abbrev accept_table : Option Table → Result (Option ℕ)
accept_table none = err (bad_request Reason.qr_not_valid)
accept_table (some t) =
    if not t.is_active || is_inactive t.status
    then err (bad_request Reason.qr_not_valid)
    else ok (some t.id)

-- The table comes from its QR token, never from an id of the client.
unfoldable pub resolve_table : List Table → Option ℕ → Result (Option ℕ)
resolve_table tables none = ok none
resolve_table tables (some token) = accept_table (find_by (λ t. t.qr_token == token) tables)

abbrev pub order_kind : Option OrderType → Option ℕ → OrderType
order_kind (some kind) table = kind
order_kind none (some t) = dine_in
order_kind none none = takeaway

abbrev pub lacks_table : OrderType → Option ℕ → Bool
lacks_table dine_in none = true
lacks_table _ _ = false

-- `email ?? undefined` leaves the stored one.
abbrev keep_email : Option String → Option String → Option String
keep_email none stored = stored
keep_email (some e) stored = some e

abbrev pub upsert_found : Guest → Db → Option Customer → ℕ × Db
upsert_found guest db (some c) = (
  c.id,
  record db {
    customers =
        update_where (λ x. x.phone == guest.phone)
          (λ x. record x { name = guest.name; email = keep_email guest.email x.email })
          db.customers;
  },
)
upsert_found guest db none = (
  db.next_id,
  record db {
    customers =
        db.customers
        ++ (record { id = db.next_id; phone = guest.phone; name = guest.name; email = guest.email }
            ∷ []);
    next_id = db.next_id + 1;
  },
)

-- The guest is found by phone, or made.
unfoldable pub upsert_customer : Guest → Db → ℕ × Db
upsert_customer guest db =
    upsert_found guest db (find_by (λ c. c.phone == guest.phone) db.customers)

abbrev pub asked_advance : ℕ → Option ℕ
asked_advance advance = if ltb 0 advance then some advance else none

abbrev pub new_order :
    ℕ → ℕ → PlaceOrderInput → Option ℕ → ℕ → List Item → Totals → Hold → Db → Order
new_order now token input table customer lines totals hold db = record {
  id = db.next_id;
  order_number = db.order_seq;
  tracking_token = token;
  status = hold.status;
  kind = order_kind input.kind table;
  payment_status = PaymentStatus.unpaid;
  payment_method = none;
  subtotal = totals.subtotal;
  tax_amount = totals.tax_amount;
  discount_amount = totals.discount_amount;
  total_amount = totals.total_amount;
  notes = input.notes;
  table_id = table;
  customer_id = some customer;
  handled_by = none;
  advance_amount = asked_advance hold.advance_minor;
  approved_by = none;
  approved_at = none;
  items = lines;
  placed_at = now;
  confirmed_at = none;
  prepared_at = none;
  ready_at = none;
  served_at = none;
  cancelled_at = none;
  cancel_reason = none;
}

-- `tx.order.create`, with the next number of the sequence.
abbrev pub insert_order : Order → Db → Db
insert_order o db = record db {
  orders = db.orders ++ (o ∷ []);
  next_id = db.next_id + 1;
  order_seq = db.order_seq + 1;
}

abbrev pub occupy : Option ℕ → Db → Db
occupy none db = db
occupy (some t) db = set_table_status t TableStatus.occupied db

-- After the commit: a held order is announced to the floor, any other to the kitchen.
abbrev pub placed_effects : Order → List Effect
placed_effects o =
    (if is_held o.status
      then Effect.emit_order_needs_approval o.id ∷ Effect.notify_order_held o.id ∷ []
      else Effect.emit_order_created o.id ∷ Effect.notify_order_placed o.id ∷ [])
    ++ (Effect.audit AuditAction.order_place o.id none ∷ [])

module _ (d : Double) where
  -- The order that is written, once the request has been accepted.
  abbrev pub drafted : ℕ → ℕ → PlaceOrderInput → Charges → Option ℕ → ℕ → List Item → ℕ → Db → Order
  drafted now token input charges table customer lines subtotal db =
      let totals = compute_totals subtotal charges.tax_percent charges.service_percent 0 in
      let exposure =
        open_balance_minor now table (some customer) db.orders db.payments + totals.total_amount in
      let hold = evaluate_hold d exposure totals.total_amount charges.gates in
      new_order now token input table customer lines totals hold db

  -- The body of the transaction.
  unfoldable pub place_order_tx : ℕ → ℕ → PlaceOrderInput → Db → Result (Order × Db)
  place_order_tx now token input db = do
    let charges = load_charges db.settings
    throw_if (not charges.is_accepting_orders) (conflict Reason.not_accepting_orders)
    table ← resolve_table db.tables input.qr_token
    throw_if (lacks_table (order_kind input.kind table) table)
        (bad_request Reason.dine_in_needs_table)
    let customer = upsert_customer input.guest db
    (lines, subtotal) ← price_items customer.1.foods input.items
    let order = drafted now token input charges table customer.0 lines subtotal customer.1
    ok (order, occupy table (insert_order order customer.1))

  unfoldable pub place_order : ℕ → ℕ → PlaceOrderInput → Db → Outcome Order
  unfolding place_order_tx
  place_order now token input db = commit db placed_effects (place_order_tx now token input db)
