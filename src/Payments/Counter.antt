-- ===== src/Payments/Counter.antt =====
-- Money taken or given back by hand: `recordCashAdvance`, `recordCashPayment`, `settleOrderPayment`
-- and `refundPayment` of server/src/services/payment.service.ts.
pub mod Laws
pub mod Settled
pub mod Refunded
use Prim.Native.String.{String}
use restaurant_qr_ordering_s.Base.{
  ℕ, ◌+◌, ◌-◌, Bool, true, false, not, ◌&&◌, Option, none, some, List, [], ◌∷◌, ◌++◌, leb, ◌==◌,
  if◌then◌else◌, update_where, count_where,
}
use restaurant_qr_ordering_s.Errors.{
  Result, ok, err, ◌>>=◌, ◌>>◌, throw_if, bad_request, conflict, not_found, Reason,
}
use restaurant_qr_ordering_s.Status.{awaiting_advance_payment, status_eq}
use restaurant_qr_ordering_s.Store.{
  Db, Order, Payment, Settings, PaymentStatus, PaymentMethod, TxnStatus, Outcome, Effect,
  AuditAction, commit, found, find_order, find_payment, update_order, update_payment,
  insert_payment, collected, is_settled, is_success,
}
use restaurant_qr_ordering_s.Orders.Gates.{is_paid}
use restaurant_qr_ordering_s.Orders.Release.{required_advance}
use restaurant_qr_ordering_s.Payments.Reconcile.{
  success_row, reconcile_after_payment, Settlement, loaded, settled_effects,
}

-- A row for money that is in the till, and the order brought into step with it.
abbrev pub take_cash : ℕ → ℕ → ℕ → ℕ → Db → Settlement × Db
take_cash now receipt order_id amount db =
    let row = success_row now receipt order_id amount PaymentMethod.cash "cash" db in
    loaded order_id row
      (reconcile_after_payment order_id PaymentMethod.cash (insert_payment row db))

abbrev pub allows_cash : Option Settings → Bool
allows_cash none = false
allows_cash (some s) = s.allow_cash_advance

unfoldable pub record_cash_advance_tx : ℕ → ℕ → ℕ → Db → Result (Settlement × Db)
record_cash_advance_tx now receipt order_id db = do
  throw_if (not (allows_cash db.settings)) (conflict Reason.no_cash_advance)
  order ← found (find_order order_id db) (not_found Reason.order_not_found)
  throw_if (not (status_eq order.status awaiting_advance_payment))
      (conflict Reason.not_awaiting_advance)
  let already = collected order_id db.payments
  throw_if (leb (required_advance order) already) (conflict Reason.advance_already_paid)
  ok (take_cash now receipt order_id (required_advance order - already) db)

abbrev pub kitchen_told : Settlement → List Effect
kitchen_told (p, none) = []
kitchen_told (p, some o) = Effect.emit_order_created o.id ∷ []

unfoldable pub record_cash_advance : ℕ → ℕ → ℕ → Option ℕ → Db → Outcome Settlement
unfolding record_cash_advance_tx
record_cash_advance now receipt order_id actor db =
    commit db
      (λ s.
        settled_effects PaymentMethod.cash (kitchen_told s) s
        ++ (Effect.audit AuditAction.payment_cash_advance s.0.id actor ∷ []))
      (record_cash_advance_tx now receipt order_id db)

unfoldable pub record_cash_payment_tx : ℕ → ℕ → ℕ → Db → Result (Settlement × Db)
record_cash_payment_tx now receipt order_id db = do
  order ← found (find_order order_id db) (not_found Reason.order_not_found)
  throw_if (is_paid order.payment_status) (conflict Reason.already_paid)
  ok (take_cash now receipt order_id order.total_amount db)

unfoldable pub record_cash_payment : ℕ → ℕ → ℕ → Db → Outcome Settlement
unfolding record_cash_payment_tx
record_cash_payment now receipt order_id db =
    commit db (settled_effects PaymentMethod.cash [])
      (record_cash_payment_tx now receipt order_id db)

abbrev pub reason_or : Option String → String
reason_or none = "Refunded by staff"
reason_or (some r) = r

abbrev pub refunded_row : ℕ → String → Payment → Payment
refunded_row now reason p = record p {
  status = TxnStatus.refunded;
  refunded_at = some now;
  refund_reason = some reason;
}

abbrev pub settled_count : ℕ → Db → ℕ
settled_count order_id db = count_where (is_settled order_id) db.payments

-- What each requested status writes to the ledger, or why it is refused.
abbrev pub ledger_write :
    ℕ → ℕ → Order → PaymentStatus → Option PaymentMethod → Option String → Db → Result Db
ledger_write now receipt o PaymentStatus.paid none reason db =
    throw_if (not (settled_count o.id db == 0)) (conflict Reason.already_paid)
    >> err (bad_request Reason.method_missing)
ledger_write now receipt o PaymentStatus.paid (some method) reason db =
    throw_if (not (settled_count o.id db == 0)) (conflict Reason.already_paid)
    >> ok (insert_payment (success_row now receipt o.id o.total_amount method "manual" db) db)
ledger_write now receipt o PaymentStatus.refunded method reason db =
    throw_if (settled_count o.id db == 0) (conflict Reason.nothing_to_refund)
    >> ok (record db {
      payments = update_where (is_settled o.id) (refunded_row now (reason_or reason)) db.payments;
    })
ledger_write now receipt o PaymentStatus.unpaid method reason db =
    throw_if (not (settled_count o.id db == 0)) (conflict Reason.has_recorded_payment) >> ok db

abbrev pub settled_method :
    PaymentStatus → Option PaymentMethod → Option PaymentMethod → Option PaymentMethod
settled_method PaymentStatus.unpaid method old = none
settled_method _ none old = old
settled_method _ (some m) old = some m

abbrev pub with_payment : PaymentStatus → Option PaymentMethod → Order → Order
with_payment status method o = record o {
  payment_status = status;
  payment_method = settled_method status method o.payment_method;
}

unfoldable pub settle_order_payment :
    ℕ → ℕ → ℕ → PaymentStatus → Option PaymentMethod → Option String → Db → Result (Order × Db)
settle_order_payment now receipt order_id status method reason db = do
  order ← found (find_order order_id db) (not_found Reason.order_not_found)
  after ← ledger_write now receipt order status method reason db
  ok (with_payment status method order, update_order order_id (with_payment status method) after)

abbrev pub as_refunded : Order → Order
as_refunded o = record o { payment_status = PaymentStatus.refunded }

-- The summary follows once nothing successful is left.
abbrev pub summarise_refund : ℕ → Db → Db
summarise_refund order_id db =
    if settled_count order_id db == 0 then update_order order_id as_refunded db else db

unfoldable pub refund_payment_tx : ℕ → ℕ → String → Db → Result (Settlement × Db)
refund_payment_tx now payment_id reason db = do
  payment ← found (find_payment payment_id db) (not_found Reason.payment_not_found)
  throw_if (not (is_success payment.status)) (conflict Reason.only_success_refundable)
  ok (
      loaded payment.order_id (refunded_row now reason payment) (
        summarise_refund payment.order_id (update_payment payment_id (refunded_row now reason) db)))

abbrev refund_effects : Settlement → List Effect
refund_effects (p, none) = []
refund_effects (p, some o) = Effect.emit_order_updated o.id ∷ Effect.notify_refund o.id ∷ []

unfoldable pub refund_payment : ℕ → ℕ → String → Db → Outcome Settlement
unfolding refund_payment_tx
refund_payment now payment_id reason db =
    commit db refund_effects (refund_payment_tx now payment_id reason db)
