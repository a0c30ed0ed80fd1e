-- ===== src/Payments/Counter/Refunded.antt =====
-- What `refundPayment` leaves in the ledger and on the order.
use Prim.Native.String.{String}
use restaurant_qr_ordering_s.Base.{
  ℕ, ◌+◌, ◌≡◌, refl, inl, inr, Bool, true, false, some, arith, ◌==◌, ==_refl, Bool-cases,
  if◌then◌else◌,
}
use restaurant_qr_ordering_s.Errors.{Result, ok, err}
use restaurant_qr_ordering_s.Store.{
  Db, Order, Payment, PaymentStatus, find_order, find_payment, update_payment, collected,
  is_success,
}
use restaurant_qr_ordering_s.Payments.Reconcile.{Settlement}
use restaurant_qr_ordering_s.Payments.Reconcile.Laws.{find_updated}
use restaurant_qr_ordering_s.Payments.Ledger.{DistinctIds, counted, collected-update}
use restaurant_qr_ordering_s.Payments.Counter.{
  settled_count, refunded_row, as_refunded, summarise_refund, refund_payment_tx,
}

-- The order once a payment of it has been given back: REFUNDED when no successful one is left.
abbrev pub order_after : Order → ℕ → Order
order_after o remaining =
    if remaining == 0 then record o { payment_status = PaymentStatus.refunded } else o

-- A refund goes through, or is refused.
abbrev pub Refunds : Bool → Payment → Order → Db → Result (Settlement × Db) → Type 0
Refunds true p o db (ok (s, after)) =
    (collected p.order_id after.payments + p.amount ≡ collected p.order_id db.payments)
    × (find_order p.order_id after ≡ some (order_after o (settled_count p.order_id after)))
Refunds true p o db (err e) = ⊥
Refunds false p o db (ok _) = ⊥
Refunds false p o db (err e) = Unit

summarise_refund-payments : (id : ℕ) (db : Db) → (summarise_refund id db).payments ≡ db.payments
summarise_refund-payments id db = ground arith

summarise_refund-find :
    (id : ℕ) (db : Db) (o : Order)
    → find_order id db ≡ some o
    → find_order id (summarise_refund id db)
      ≡ some (order_after o (settled_count id (summarise_refund id db)))
summarise_refund-find id db o e = elim (Bool-cases (settled_count id db == 0)) [
  | inl clear ↦ rw (clear, clear) (find_updated id as_refunded db o (λ x. refl) e)
  | inr left ↦ rw (left, left) e
]

counted_paid : (p : Payment) → is_success p.status ≡ true → counted p.order_id p ≡ p.amount
counted_paid p h = rw (==_refl p.order_id, h) refl

counted_refunded :
    (now : ℕ) (reason : String) (p : Payment) → counted p.order_id (refunded_row now reason p) ≡ 0
counted_refunded now reason p = ground arith

-- A refund goes through exactly for a successful payment; the ledger then holds that much less for
-- the order, and the order is REFUNDED exactly when no successful payment of it is left, and otherwise
-- unchanged.
pub refund_payment_tx-Refunds :
    (now : ℕ) (reason : String) (p : Payment) (db : Db) (o : Order)
    → DistinctIds db.payments
    → find_payment p.id db ≡ some p
    → find_order p.order_id db ≡ some o
    → Refunds (is_success p.status) p o db (refund_payment_tx now p.id reason db)
unfolding refund_payment_tx
refund_payment_tx-Refunds now reason p db o d f e = elim (Bool-cases (is_success p.status)) [
  | inr closed ↦ rw (f, closed) tt
  | inl paid_in ↦
      let mid = update_payment p.id (refunded_row now reason) db in
      let moved = collected-update p.order_id p.id (refunded_row now reason) db.payments p d f in
      let less : collected p.order_id mid.payments + p.amount ≡ collected p.order_id db.payments =
        omega (arith, moved, counted_paid p paid_in, counted_refunded now reason p) in
      rw (f, paid_in)
        (
          rw (summarise_refund-payments p.order_id mid) less,
          summarise_refund-find p.order_id mid o e,
        )
]
