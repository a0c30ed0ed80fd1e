-- ===== src/Payments/Reconcile.antt =====
-- The steps that the settlements of server/src/services/payment.service.ts share: new rows of the
-- ledger, `reconcileAfterPayment`, and what a settlement answers.
pub mod Laws
use Prim.Native.String.{String}
use restaurant_qr_ordering_s.Base.{ℕ, Option, none, some, List, [], ◌∷◌, ◌++◌, leb, if◌then◌else◌}
use restaurant_qr_ordering_s.Store.{
  Db, Order, Payment, PaymentStatus, PaymentMethod, TxnStatus, Effect, find_order, update_order,
  collected,
}
use restaurant_qr_ordering_s.Orders.Release.{release_after_payment}

-- A row written with status SUCCESS; `receipt` is the random receipt number.
abbrev pub success_row : ℕ → ℕ → ℕ → ℕ → PaymentMethod → String → Db → Payment
success_row now receipt order_id amount method provider db = record {
  id = db.next_id;
  order_id = order_id;
  amount = amount;
  method = method;
  status = TxnStatus.success;
  provider = provider;
  provider_ref = none;
  receipt_number = some receipt;
  refunded_at = none;
  refund_reason = none;
  paid_at = some now;
  created_at = now;
}

abbrev pub summarised : PaymentMethod → ℕ → Order → Order
summarised method captured o = record o {
  payment_method = some method;
  payment_status = if leb o.total_amount captured then PaymentStatus.paid else o.payment_status;
}

abbrev pub reconcile_found : ℕ → PaymentMethod → Db → Option Order → Db
reconcile_found id method db none = db
reconcile_found id method db (some o) =
    release_after_payment id (update_order id (summarised method (collected id db.payments)) db)

unfoldable pub reconcile_after_payment : ℕ → PaymentMethod → Db → Db
reconcile_after_payment id method db = reconcile_found id method db (find_order id db)

-- The payment, and the order as `loadOrderForEmit` reads it at the end of the transaction.
abbrev pub Settlement : Type 0
Settlement = Payment × Option Order

abbrev pub loaded : ℕ → Payment → Db → Settlement × Db
loaded order_id p db = ((p, find_order order_id db), db)

abbrev pub settled_effects : PaymentMethod → List Effect → Settlement → List Effect
settled_effects method more (p, none) = []
settled_effects method more (p, some o) =
    Effect.emit_order_updated o.id
    ∷ Effect.emit_payment_status_changed o.id o.payment_status method
    ∷ more
