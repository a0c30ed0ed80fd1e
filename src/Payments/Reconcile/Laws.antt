-- ===== src/Payments/Reconcile/Laws.antt =====
-- What `reconcileAfterPayment` does to the order that money has landed on.
use restaurant_qr_ordering_s.Base.{
  ℕ, ◌+◌, ◌≤◌, ◌<◌, ◌⊎◌, leb, ◌≡◌, refl, inl, inr, true, false, none, some, List, [], ◌∷◌, arith,
  ltb, Bool-cases, if◌then◌else◌, find_by-update_where, ◌++◌, sum_of-select-append,
}
use restaurant_qr_ordering_s.Status.{OrderStatus, awaiting_advance_payment, pending, status_eq}
use restaurant_qr_ordering_s.Store.{
  Db, Order, Payment, PaymentMethod, PaymentStatus, has_id, find_order, update_order, collected,
  is_settled,
}
use restaurant_qr_ordering_s.Orders.Release.{
  required_advance, set_status, release_found, release_after_payment,
}
use restaurant_qr_ordering_s.Payments.Reconcile.{
  summarised, reconcile_found, reconcile_after_payment,
}

-- The status after money has landed: a paid advance sends the order to the kitchen.
abbrev pub released_status : Order → ℕ → OrderStatus
released_status o captured =
    if status_eq o.status awaiting_advance_payment
    then (if ltb captured (required_advance o) then o.status else pending)
    else o.status

-- The order as it stands after the settlement.
abbrev pub settled_order : PaymentMethod → ℕ → Order → Order
settled_order method captured o = record o {
  status = released_status o captured;
  payment_method = some method;
  payment_status = if leb o.total_amount captured then PaymentStatus.paid else o.payment_status;
}

pub find_updated :
    (id : ℕ) (f : Order → Order) (db : Db) (o : Order)
    → ((x : Order) → (f x).id ≡ x.id)
    → find_order id db ≡ some o
    → find_order id (update_order id f db) ≡ some (f o)
find_updated id f db o keep e =
    find_by-update_where (has_id id) f db.orders o (λ x. ground (arith, keep x)) e

-- What `releaseAfterPayment` leaves, for the row that it reads.
release_find :
    (id : ℕ) (db : Db) (o : Order)
    → find_order id db ≡ some o
    → find_order id (release_after_payment id db)
      ≡ some (set_status (released_status o (collected id db.payments)) o)
unfolding release_after_payment
release_find id db o e = elim (Bool-cases (status_eq o.status awaiting_advance_payment)) [
  | inl waits ↦ elim (Bool-cases (ltb (collected id db.payments) (required_advance o))) [
    | inl short ↦ rw (e, waits, short) e
    | inr enough ↦ rw (e, waits, enough) (find_updated id (set_status pending) db o (λ x. refl) e)
  ]
  | inr other ↦ rw (e, other) e
]

release-payments : (id : ℕ) (db : Db) → (release_after_payment id db).payments ≡ db.payments
unfolding release_after_payment
release-payments id db =
    elim (find_order id db) as (λ r. (release_found id db r).payments ≡ db.payments) [
      | none ↦ refl
      | some o ↦ ground arith
    ]

-- The row that a settlement leaves.
pub reconcile_after_payment-find :
    (id : ℕ) (method : PaymentMethod) (db : Db) (o : Order)
    → find_order id db ≡ some o
    → find_order id (reconcile_after_payment id method db)
      ≡ some (settled_order method (collected id db.payments) o)
unfolding reconcile_after_payment
reconcile_after_payment-find id method db o e = rw e (
    release_find id (update_order id (summarised method (collected id db.payments)) db)
      (summarised method (collected id db.payments) o)
      (find_updated id (summarised method (collected id db.payments)) db o (λ x. refl) e))

-- What money that has landed makes of an order.
pub record IsReconciled (method : PaymentMethod) (captured : ℕ) (o p : Order) : Type 0 where
  pub paid_only :
      p.payment_status ≡ PaymentStatus.paid
      → (o.total_amount ≤ captured) ⊎ (o.payment_status ≡ PaymentStatus.paid)
  pub paid_if : o.total_amount ≤ captured → p.payment_status ≡ PaymentStatus.paid
  pub unpaid_if : captured < o.total_amount → p.payment_status ≡ o.payment_status
  pub released :
      o.status ≡ awaiting_advance_payment → required_advance o ≤ captured → p.status ≡ pending
  pub short : captured < required_advance o → p.status ≡ o.status
  pub elsewhere : status_eq o.status awaiting_advance_payment ≡ false → p.status ≡ o.status
  pub method_set : p.payment_method ≡ some method
  pub rest_kept : p ≡ record o {
    status = p.status;
    payment_method = p.payment_method;
    payment_status = p.payment_status;
  }

settled_order-IsReconciled :
    (method : PaymentMethod) (captured : ℕ) (o : Order)
    → IsReconciled method captured o (settled_order method captured o)
settled_order-IsReconciled method captured o = record {
  paid_only = λ h. ground (arith, h);
  paid_if = λ h. ground (arith, h);
  unpaid_if = λ h. ground (arith, h);
  released = λ h k. rw h (ground (arith, k));
  short = λ h. ground (arith, h);
  elsewhere = λ h. ground (arith, h);
  method_set = refl;
  rest_kept = refl;
}

-- After a settlement the order is PAID if and only if the ledger holds its whole bill or it was PAID
-- before, it leaves `AWAITING_ADVANCE_PAYMENT` for the kitchen queue exactly if the ledger holds the
-- whole advance, its method is that of the money, and nothing else of it changes.
pub reconcile_after_payment-IsReconciled :
    (id : ℕ) (method : PaymentMethod) (db : Db) (o : Order)
    → find_order id db ≡ some o
    → (p : Order) × (find_order id (reconcile_after_payment id method db) ≡ some p)
      × IsReconciled method (collected id db.payments) o p
reconcile_after_payment-IsReconciled id method db o e =
    let captured = collected id db.payments in
    (
      settled_order method captured o,
      reconcile_after_payment-find id method db o e,
      settled_order-IsReconciled method captured o,
    )

-- The ledger itself is left as it is.
pub reconcile_after_payment-payments :
    (id : ℕ) (method : PaymentMethod) (db : Db)
    → (reconcile_after_payment id method db).payments ≡ db.payments
unfolding reconcile_after_payment
reconcile_after_payment-payments id method db =
    elim (find_order id db) as (λ r. (reconcile_found id method db r).payments ≡ db.payments) [
      | none ↦ refl
      | some o ↦
          release-payments id (update_order id (summarised method (collected id db.payments)) db)
    ]

-- A new row counts with its amount if it is a successful one of the order.
pub collected-insert :
    (id : ℕ) (p : Payment) (payments : List Payment)
    → is_settled id p ≡ true
    → collected id (payments ++ (p ∷ [])) ≡ collected id payments + p.amount
collected-insert id p payments h =
    rw (sum_of-select-append (λ x. x.amount) (is_settled id) payments p, h) refl
