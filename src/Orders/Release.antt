-- ===== src/Orders/Release.antt =====
-- Leaving a hold and adding to an order: `releaseAfterPayment`, `approveOrder` and `addItems` of
-- server/src/services/order.service.ts.
pub mod Laws
use restaurant_qr_ordering_s.Base.{
  ℕ, ◌+◌, Bool, true, false, not, ◌&&◌, Option, none, some, List, [], ◌∷◌, ◌++◌, ltb, ◌==◌,
  if◌then◌else◌, sum_of,
}
use restaurant_qr_ordering_s.Errors.{
  Result, ok, err, ◌>>=◌, ◌>>◌, throw_if, conflict, not_found, Reason,
}
use restaurant_qr_ordering_s.Status.{
  OrderStatus, needs_approval, awaiting_advance_payment, pending, status_eq, includes, is_held,
  editable_statuses,
}
use restaurant_qr_ordering_s.Store.{
  Db, Order, Item, Outcome, Effect, AuditAction, commit, found, find_order, update_order, collected,
}
use restaurant_qr_ordering_s.Orders.Pricing.{
  Request, Totals, Charges, price_items, compute_totals, load_charges,
}

-- `toMinorUnits(order.advanceAmount?.toString() ?? "0")`
abbrev pub required_advance : Order → ℕ
required_advance o = elim o.advance_amount [ none ↦ 0 | some a ↦ a ]

abbrev pub set_status : OrderStatus → Order → Order
set_status next o = record o { status = next }

abbrev pub release_found : ℕ → Db → Option Order → Db
release_found id db none = db
release_found id db (some o) =
    if not (status_eq o.status awaiting_advance_payment)
    then db
    else if ltb (collected id db.payments) (required_advance o)
    then db
    else update_order id (set_status pending) db

-- Runs inside the settlement's transaction; its answer is not used there.
unfoldable pub release_after_payment : ℕ → Db → Db
release_after_payment id db = release_found id db (find_order id db)

abbrev pub approved_status : Order → Db → OrderStatus
approved_status o db =
    if ltb 0 (required_advance o) && ltb (collected o.id db.payments) (required_advance o)
    then awaiting_advance_payment
    else pending

-- A column that is given as `undefined` keeps its value.
abbrev pub given : Option ℕ → Option ℕ → Option ℕ
given none old = old
given (some a) old = some a

abbrev pub approved : ℕ → Option ℕ → OrderStatus → Order → Order
approved now actor next o = record o {
  status = next;
  approved_by = given actor o.approved_by;
  approved_at = some now;
}

unfoldable pub approve_order_tx : ℕ → ℕ → Option ℕ → Db → Result (Order × Db)
approve_order_tx now id actor db = do
  order ← found (find_order id db) (not_found Reason.order_not_found)
  throw_if (status_eq order.status awaiting_advance_payment) (conflict Reason.already_approved)
  throw_if (not (status_eq order.status needs_approval)) (conflict Reason.nothing_to_approve)
  let next = approved_status order db
  ok (approved now actor next order, update_order id (approved now actor next) db)

-- The kitchen is told only of an order that has reached its queue.
abbrev pub approved_effects : Option ℕ → Order → List Effect
approved_effects actor o =
    (if status_eq o.status pending
      then Effect.emit_order_created o.id ∷ Effect.notify_order_placed o.id ∷ []
      else Effect.emit_order_needs_approval o.id ∷ [])
    ++ (Effect.emit_order_status_changed o.id
        ∷ Effect.audit AuditAction.order_approve o.id actor
        ∷ [])

unfoldable pub approve_order : ℕ → ℕ → Option ℕ → Db → Outcome Order
unfolding approve_order_tx
approve_order now id actor db =
    commit db (approved_effects actor) (approve_order_tx now id actor db)

abbrev pub lines_total : List Item → ℕ
lines_total = sum_of (λ i. i.line_total)

abbrev pub extended : Totals → List Item → Order → Order
extended totals lines o = record o {
  subtotal = totals.subtotal;
  tax_amount = totals.tax_amount;
  discount_amount = totals.discount_amount;
  total_amount = totals.total_amount;
  items = o.items ++ lines;
}

unfoldable pub add_items_tx : ℕ → List Request → Db → Result (Order × Db)
add_items_tx id requests db = do
  order ← found (find_order id db) (not_found Reason.order_not_found)
  throw_if (is_held order.status) (conflict Reason.order_is_held)
  throw_if (not (includes editable_statuses order.status)) (conflict Reason.not_editable)
  let charges = load_charges db.settings
  (lines, added) ← price_items db.foods requests
  let totals =
      compute_totals (lines_total order.items + added) charges.tax_percent charges.service_percent
        order.discount_amount
  ok (extended totals lines order, update_order id (extended totals lines) db)

unfoldable pub add_items : ℕ → List Request → Db → Outcome Order
unfolding add_items_tx
add_items id requests db =
    commit db (λ o. Effect.emit_order_updated o.id ∷ []) (add_items_tx id requests db)
