-- ===== src/Store/Tx.antt =====
-- The queries and writes of the services, and `prisma.$transaction`: the body reads and writes the
-- database or throws, and a throw leaves no write behind. What a service announces after the commit
-- (sockets, notifications, the audit trail) is the list of its effects; an effect names the order or
-- payment that it is about, and its payload is a view of that row.
use Prim.Native.String.{String}
use restaurant_qr_ordering_s.Base.{
  ℕ, ◌+◌, Bool, true, false, ◌&&◌, Option, none, some, List, [], ◌∷◌, ◌++◌, ◌==◌, find_by,
  update_where, select, sum_of,
}
use restaurant_qr_ordering_s.Errors.{AppError, Result, ok, err}
use restaurant_qr_ordering_s.Store.Rows.{
  Db, Order, Payment, TableStatus, TxnStatus, PaymentStatus, PaymentMethod,
}

pub data AuditAction : Type 0 where
  order_place order_approve order_reject order_cancel_by_guest payment_cash_advance : AuditAction

pub data Effect : Type 0 where
  emit_order_created emit_order_needs_approval emit_order_status_changed emit_order_updated :
      ℕ → Effect
  emit_order_cancelled emit_waiter_order_ready : ℕ → Effect
  emit_payment_status_changed : ℕ → PaymentStatus → PaymentMethod → Effect
  notify_order_placed notify_order_held notify_order_status notify_payment notify_refund :
      ℕ → Effect
  emit_food_availability_changed : ℕ → Effect
  remove_file : String → Effect
  audit : AuditAction → ℕ → Option ℕ → Effect

-- The answer of a service call, the database after it, and its effects in order.
abbrev pub Outcome : Type 0 → Type 0
Outcome A = Result A × Db × List Effect

abbrev pub commit : {A : Type 0} → Db → (A → List Effect) → Result (A × Db) → Outcome A
commit before effects (ok (a, after)) = (ok a, after, effects a)
commit before effects (err e) = (err e, before, [])

abbrev pub found : {A : Type 0} → Option A → AppError → Result A
found none e = err e
found (some a) e = ok a

abbrev pub has_id : ℕ → Order → Bool
has_id id o = o.id == id

abbrev pub find_order : ℕ → Db → Option Order
find_order id db = find_by (has_id id) db.orders

abbrev pub find_by_token : ℕ → Db → Option Order
find_by_token token db = find_by (λ o. o.tracking_token == token) db.orders

abbrev pub find_payment : ℕ → Db → Option Payment
find_payment id db = find_by (λ p. p.id == id) db.payments

abbrev pub update_order : ℕ → (Order → Order) → Db → Db
update_order id f db = record db { orders = update_where (has_id id) f db.orders }

abbrev pub update_payment : ℕ → (Payment → Payment) → Db → Db
update_payment id f db = record db { payments = update_where (λ p. p.id == id) f db.payments }

abbrev pub set_table_status : ℕ → TableStatus → Db → Db
set_table_status id status db = record db {
  tables = update_where (λ t. t.id == id) (λ t. record t { status = status }) db.tables;
}

abbrev pub insert_payment : Payment → Db → Db
insert_payment p db = record db { payments = db.payments ++ (p ∷ []); next_id = db.next_id + 1 }

abbrev pub is_success : TxnStatus → Bool
is_success TxnStatus.success = true
is_success _ = false

abbrev pub is_settled : ℕ → Payment → Bool
is_settled order_id p = p.order_id == order_id && is_success p.status

-- `payments: { where: { status: "SUCCESS" } }` of one order.
abbrev pub settled_payments : ℕ → List Payment → List Payment
settled_payments order_id = select (is_settled order_id)

abbrev pub total_of : List Payment → ℕ
total_of = sum_of (λ p. p.amount)

-- What has been captured against an order.
abbrev pub collected : ℕ → List Payment → ℕ
collected order_id payments = total_of (settled_payments order_id payments)
