-- ===== src/Payments/Counter/Laws.antt =====
-- What a settlement at the counter leaves in the ledger and on the order.
use restaurant_qr_ordering_s.Base.{
  ℕ, ◌+◌, ◌-◌, ◌<◌, ◌≡◌, refl, ◌∙◌, ap, true, false, Option, some, arith, leb, ltb, ==_refl,
}
use restaurant_qr_ordering_s.Errors.{Result, ok, err}
use restaurant_qr_ordering_s.Status.{awaiting_advance_payment, pending, status_eq}
use restaurant_qr_ordering_s.Store.{
  Db, Order, PaymentStatus, PaymentMethod, find_order, insert_payment, collected,
}
use restaurant_qr_ordering_s.Orders.Gates.{is_paid}
use restaurant_qr_ordering_s.Orders.Release.{required_advance, set_status}
use restaurant_qr_ordering_s.Payments.Reconcile.{summarised, success_row, Settlement}
use restaurant_qr_ordering_s.Payments.Reconcile.Laws.{
  settled_order, released_status, reconcile_after_payment-find, reconcile_after_payment-payments,
  collected-insert,
}
use restaurant_qr_ordering_s.Payments.Counter.{
  allows_cash, take_cash, record_cash_advance_tx, record_cash_payment_tx,
}

-- Cash taken: the ledger grows by the amount and the order follows.
pub take_cash-ledger :
    (now receipt id amount : ℕ) (db : Db) (o : Order)
    → find_order id db ≡ some o
    → (collected id (take_cash now receipt id amount db).1.payments
        ≡ collected id db.payments + amount)
      × (find_order id (take_cash now receipt id amount db).1
          ≡ some (settled_order PaymentMethod.cash (collected id db.payments + amount) o))
take_cash-ledger now receipt id amount db o e =
    let row = success_row now receipt id amount PaymentMethod.cash "cash" db in
    let grown : collected id (insert_payment row db).payments ≡ collected id db.payments + amount =
      collected-insert id row db.payments (rw (==_refl id) refl) in
    (
      rw (reconcile_after_payment-payments id PaymentMethod.cash (insert_payment row db)) grown,
      reconcile_after_payment-find id PaymentMethod.cash (insert_payment row db) o e
          ∙ ap (λ c. some (settled_order PaymentMethod.cash c o)) grown,
    )

-- The answer of a cash settlement: the order, if it is still there.
abbrev pub Answers : Option Order → Result (Settlement × Db) → ℕ → ℕ → Type 0
Answers expected (err e) id captured = ⊥
Answers expected (ok (s, after)) id captured =
    (s.1 ≡ expected) × (find_order id after ≡ expected) × (collected id after.payments ≡ captured)

advance_paid :
    (o : Order)
    → status_eq o.status awaiting_advance_payment ≡ true
    → settled_order PaymentMethod.cash (required_advance o) o
      ≡ set_status pending (summarised PaymentMethod.cash (required_advance o) o)
advance_paid o waits =
    let full : ltb (required_advance o) (required_advance o) ≡ false = ground arith in
    rw (waits, full) refl

abbrev pub paid_in_cash : ℕ → Order → Order
paid_in_cash captured o = record o {
  status = released_status o captured;
  payment_method = some PaymentMethod.cash;
  payment_status = PaymentStatus.paid;
}

bill_paid :
    (o : Order) (before : ℕ)
    → settled_order PaymentMethod.cash (before + o.total_amount) o
      ≡ paid_in_cash (before + o.total_amount) o
bill_paid o before =
    let full : leb o.total_amount (before + o.total_amount) ≡ true = ground arith in rw full refl

-- Where cash advances are allowed, an order waits for its advance and part of it is missing, taking
-- the advance at the counter succeeds: the ledger then holds the required advance exactly, and the
-- order, as it is stored and as it is answered, stands in the kitchen queue.
pub record_cash_advance_tx-releases :
    (now receipt id : ℕ) (db : Db) (o : Order)
    → find_order id db ≡ some o
    → allows_cash db.settings ≡ true
    → status_eq o.status awaiting_advance_payment ≡ true
    → collected id db.payments < required_advance o
    → Answers
        (some (set_status pending (summarised PaymentMethod.cash (required_advance o) o)))
        (record_cash_advance_tx now receipt id db)
        id
        (required_advance o)
unfolding record_cash_advance_tx
record_cash_advance_tx-releases now receipt id db o e allowed waits missing =
    let enough : leb (required_advance o) (collected id db.payments) ≡ false = ground arith in
    let sum : collected id db.payments + (required_advance o - collected id db.payments)
        ≡ required_advance o =
      omega arith in
    let (ledger, order) =
      take_cash-ledger now receipt id (required_advance o - collected id db.payments) db o e in
    let stored =
      order
      ∙ ap (λ c. some (settled_order PaymentMethod.cash c o)) sum
      ∙ ap some (advance_paid o waits) in
    rw (e, allowed, waits, enough) (stored, stored, ledger ∙ sum)

-- Cash for an order that is not PAID yet always goes through, whatever the status of the order and
-- whatever has been collected: it adds the whole bill to what the ledger holds, and leaves the order
-- PAID.
pub record_cash_payment_tx-adds :
    (now receipt id : ℕ) (db : Db) (o : Order)
    → find_order id db ≡ some o
    → is_paid o.payment_status ≡ false
    → Answers
        (some (paid_in_cash (collected id db.payments + o.total_amount) o))
        (record_cash_payment_tx now receipt id db)
        id
        (collected id db.payments + o.total_amount)
unfolding record_cash_payment_tx
record_cash_payment_tx-adds now receipt id db o e unpaid =
    let (ledger, order) = take_cash-ledger now receipt id o.total_amount db o e in
    let stored = order ∙ ap some (bill_paid o (collected id db.payments)) in
    rw (e, unpaid) (stored, stored, ledger)
